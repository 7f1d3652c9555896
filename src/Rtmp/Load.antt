-- ===== src/Rtmp/Load.antt =====
-- The table of native methods of librtmp/src/main/jni/RtmpHandle.cpp and the loading of the library,
-- with the class RtmpHandle of librtmp/src/main/java that declares the methods.
use Prim.Native.String.{String}
use jrtplib4android.Prelude.{false, List, [], ◌∷◌, map, ◌||◌, not, if◌then◌else◌}
use jrtplib4android.Prelude.Int.{ℤ, negsuc, is_negative}
use jrtplib4android.Jni.Load.{
  void, boolean, int, long, string, bytes, JavaMethod, jvoid, jboolean, jint, jlong, jstring,
  jbyte_array, jobject, CFunction, NativeMethod, entry, JavaVm, jni_version_1_4, is_ok,
}

-- The types of the functions of C, without `JNIEnv *`.
abbrev init_rtmp_handle_type : CFunction
init_rtmp_handle_type = record { params = jobject ∷ jstring ∷ []; result = jlong }

abbrev release_rtmp_handle_type : CFunction
release_rtmp_handle_type = record { params = jobject ∷ jlong ∷ []; result = jvoid }

abbrev push_flv_data_type : CFunction
push_flv_data_type = record { params = jobject ∷ jlong ∷ jbyte_array ∷ jint ∷ []; result = jint }

abbrev push_h264_data_type : CFunction
push_h264_data_type = record {
  params = jobject ∷ jlong ∷ jbyte_array ∷ jint ∷ jboolean ∷ [];
  result = jint;
}

abbrev push_sps_pps_type : CFunction
push_sps_pps_type = record {
  params = jobject ∷ jlong ∷ jbyte_array ∷ jint ∷ jbyte_array ∷ jint ∷ [];
  result = jint;
}

abbrev push_flv_file_type : CFunction
push_flv_file_type = record { params = jobject ∷ jstring ∷ jstring ∷ []; result = jint }

-- `methods`
abbrev pub methods : List NativeMethod
methods =
    record {
      name = "initRtmpHandle";
      signature = "(Ljava/lang/String;)J";
      fn_ptr = init_rtmp_handle_type;
    }
    ∷ record { name = "releaseRtmpHandle"; signature = "(J)V"; fn_ptr = release_rtmp_handle_type }
    ∷ record { name = "pushFlvData"; signature = "(J[BI)I"; fn_ptr = push_flv_data_type }
    ∷ record { name = "pushH264Data"; signature = "(J[BIZ)I"; fn_ptr = push_h264_data_type }
    ∷ record { name = "pushSPSPPS"; signature = "(J[BI[BI)I"; fn_ptr = push_sps_pps_type }
    ∷ record {
      name = "pushFlvFile";
      signature = "(Ljava/lang/String;Ljava/lang/String;)I";
      fn_ptr = push_flv_file_type;
    }
    ∷ []

-- The methods that the class declares.
abbrev pub declared : List JavaMethod
declared =
    record { name = "initRtmpHandle"; is_static = false; params = string ∷ []; result = long }
    ∷ record {
      name = "pushFlvData";
      is_static = false;
      params = long ∷ bytes ∷ int ∷ [];
      result = int;
    }
    ∷ record {
      name = "pushH264Data";
      is_static = false;
      params = long ∷ bytes ∷ int ∷ boolean ∷ [];
      result = int;
    }
    ∷ record {
      name = "pushSPSPPS";
      is_static = false;
      params = long ∷ bytes ∷ int ∷ bytes ∷ int ∷ [];
      result = int;
    }
    ∷ record {
      name = "pushFlvFile";
      is_static = false;
      params = string ∷ string ∷ [];
      result = int;
    }
    ∷ record { name = "releaseRtmpHandle"; is_static = false; params = long ∷ []; result = void }
    ∷ []

abbrev pub class_name : String
class_name = "com/wtoe/rtmp/RtmpHandle"

-- `registerNativeMethods`: a class that is not found is passed on as it is.
unfoldable pub register_native_methods : JavaVm → ℤ
register_native_methods vm = vm.register_natives (vm.find_class class_name) (map entry methods)

-- `JNI_OnLoad`
unfoldable pub jni_on_load : JavaVm → ℤ
unfolding register_native_methods
jni_on_load vm =
    if not (is_ok vm.get_env) || not vm.has_env
    then negsuc 0
    else if is_negative (register_native_methods vm)
    then negsuc 0
    else jni_version_1_4
