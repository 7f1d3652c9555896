-- ===== src/Rtp/Load.antt =====
-- The table of native methods of jrtp/src/main/jni/RtpHandle.cpp and the loading of the library, with
-- the class RtpHandle of jrtp/src/main/java that declares the methods.
use Prim.Native.String.{String}
use jrtplib4android.Prelude.{true, List, [], ◌∷◌, map, ◌||◌, not, if◌then◌else◌}
use jrtplib4android.Prelude.Int.{ℤ, negsuc, is_negative}
use jrtplib4android.Jni.Load.{
  boolean, int, long, string, bytes, instance_of, JavaMethod, jboolean, jint, jlong, jstring,
  jbyte_array, jobject, jclass, CFunction, NativeMethod, entry, JavaVm, jni_version_1_4, is_ok,
}

-- The types of the functions of C, without `JNIEnv *`.
abbrev init_send_handle_type : CFunction
init_send_handle_type = record {
  params = jclass ∷ jint ∷ jstring ∷ jint ∷ jobject ∷ jint ∷ [];
  result = jlong;
}

abbrev init_receive_handle_type : CFunction
init_receive_handle_type = record {
  params = jclass ∷ jstring ∷ jint ∷ jobject ∷ [];
  result = jlong;
}

abbrev init_receive_and_send_handle_type : CFunction
init_receive_and_send_handle_type = record {
  params = jclass ∷ jstring ∷ jint ∷ jint ∷ jstring ∷ jint ∷ jobject ∷ jint ∷ [];
  result = jlong;
}

abbrev send_byte_type : CFunction
send_byte_type = record {
  params = jclass ∷ jlong ∷ jbyte_array ∷ jint ∷ jboolean ∷ jboolean ∷ jlong ∷ [];
  result = jboolean;
}

abbrev fini_handle_type : CFunction
fini_handle_type = record { params = jclass ∷ jlong ∷ []; result = jboolean }

-- `methods`
abbrev pub methods : List NativeMethod
methods =
    record {
      name = "initSendHandle";
      signature = "(ILjava/lang/String;ILcom/wtoe/jrtplib/RtpListener;I)J";
      fn_ptr = init_send_handle_type;
    }
    ∷ record {
      name = "initReceiveHandle";
      signature = "(Ljava/lang/String;ILcom/wtoe/jrtplib/RtpListener;)J";
      fn_ptr = init_receive_handle_type;
    }
    ∷ record {
      name = "initReceiveAndSendHandle";
      signature = "(Ljava/lang/String;IILjava/lang/String;ILcom/wtoe/jrtplib/RtpListener;I)J";
      fn_ptr = init_receive_and_send_handle_type;
    }
    ∷ record { name = "sendByte"; signature = "(J[BIZZJ)Z"; fn_ptr = send_byte_type }
    ∷ record { name = "finiHandle"; signature = "(J)Z"; fn_ptr = fini_handle_type }
    ∷ []

-- The methods that the class declares.
abbrev pub declared : List JavaMethod
declared =
    record {
      name = "initSendHandle";
      is_static = true;
      params = int ∷ string ∷ int ∷ instance_of "com/wtoe/jrtplib/RtpListener" ∷ int ∷ [];
      result = long;
    }
    ∷ record {
      name = "initReceiveHandle";
      is_static = true;
      params = string ∷ int ∷ instance_of "com/wtoe/jrtplib/RtpListener" ∷ [];
      result = long;
    }
    ∷ record {
      name = "initReceiveAndSendHandle";
      is_static = true;
      params =
          string ∷ int ∷ int ∷ string ∷ int ∷ instance_of "com/wtoe/jrtplib/RtpListener" ∷ int ∷ [];
      result = long;
    }
    ∷ record {
      name = "sendByte";
      is_static = true;
      params = long ∷ bytes ∷ int ∷ boolean ∷ boolean ∷ long ∷ [];
      result = boolean;
    }
    ∷ record { name = "finiHandle"; is_static = true; params = long ∷ []; result = boolean }
    ∷ []

abbrev pub class_name : String
class_name = "com/wtoe/jrtplib/RtpHandle"

-- `registerNativeMethods`: a class that is not found is passed on as it is.
unfoldable pub register_native_methods : JavaVm → ℤ
register_native_methods vm = vm.register_natives (vm.find_class class_name) (map entry methods)

-- `JNI_OnLoad`: what it returns, and `g_jvm`.
unfoldable pub jni_on_load : JavaVm → ℤ × JavaVm
unfolding register_native_methods
jni_on_load vm = (
  if not (is_ok vm.get_env) || not vm.has_env
      then negsuc 0
      else if is_negative (register_native_methods vm)
      then negsuc 0
      else jni_version_1_4,
  vm,
)
