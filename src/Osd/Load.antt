-- ===== src/Osd/Load.antt =====
-- The table of native methods of osd/src/main/jni/YuvOsdUtils.cpp and the loading of the library, with
-- the class YuvOsdUtils of osd/src/main/java that declares the methods.
use Prim.Native.String.{String}
use jrtplib4android.Prelude.{true, List, [], ◌∷◌, map, ◌||◌, not, if◌then◌else◌}
use jrtplib4android.Prelude.Int.{ℤ, negsuc, is_negative}
use jrtplib4android.Jni.Load.{
  void, int, long, string, bytes, ints, JavaMethod, jvoid, jint, jlong, jstring, jbyte_array,
  jint_array, jclass, CFunction, NativeMethod, entry, JavaVm, jni_version_1_4, is_ok,
}

-- The types of the functions of C, without `JNIEnv *`.
abbrev init_osd_type : CFunction
init_osd_type = record {
  params = jclass ∷ jint ∷ jint ∷ jint ∷ jint ∷ jint ∷ jint ∷ [];
  result = jlong;
}

abbrev release_osd_type : CFunction
release_osd_type = record { params = jclass ∷ jlong ∷ []; result = jvoid }

abbrev add_osd_type : CFunction
add_osd_type = record {
  params = jclass ∷ jlong ∷ jbyte_array ∷ jbyte_array ∷ jstring ∷ [];
  result = jvoid;
}

abbrev argb_int_to_nv21_type : CFunction
argb_int_to_nv21_type = record {
  params = jclass ∷ jlong ∷ jint_array ∷ jint ∷ jint ∷ [];
  result = jbyte_array;
}

abbrev argb_int_to_nv12_type : CFunction
argb_int_to_nv12_type = record {
  params = jclass ∷ jlong ∷ jint_array ∷ jint ∷ jint ∷ [];
  result = jbyte_array;
}

abbrev argb_int_to_gray_nv_type : CFunction
argb_int_to_gray_nv_type = record {
  params = jclass ∷ jlong ∷ jint_array ∷ jint ∷ jint ∷ [];
  result = jbyte_array;
}

abbrev nv21_to_nv12_type : CFunction
nv21_to_nv12_type = record {
  params = jclass ∷ jlong ∷ jbyte_array ∷ jbyte_array ∷ jint ∷ jint ∷ [];
  result = jvoid;
}

-- `methods`
abbrev pub methods : List NativeMethod
methods =
    record { name = "initOsd"; signature = "(IIIIII)J"; fn_ptr = init_osd_type }
    ∷ record { name = "releaseOsd"; signature = "(J)V"; fn_ptr = release_osd_type }
    ∷ record { name = "addOsd"; signature = "(J[B[BLjava/lang/String;)V"; fn_ptr = add_osd_type }
    ∷ record { name = "argbIntToNV21Byte"; signature = "(J[III)[B"; fn_ptr = argb_int_to_nv21_type }
    ∷ record { name = "argbIntToNV12Byte"; signature = "(J[III)[B"; fn_ptr = argb_int_to_nv12_type }
    ∷ record {
      name = "argbIntToGrayNVByte";
      signature = "(J[III)[B";
      fn_ptr = argb_int_to_gray_nv_type;
    }
    ∷ record { name = "nv21ToNv12"; signature = "(J[B[BII)V"; fn_ptr = nv21_to_nv12_type }
    ∷ []

-- The methods that the class declares.
abbrev pub declared : List JavaMethod
declared =
    record {
      name = "initOsd";
      is_static = true;
      params = int ∷ int ∷ int ∷ int ∷ int ∷ int ∷ [];
      result = long;
    }
    ∷ record { name = "releaseOsd"; is_static = true; params = long ∷ []; result = void }
    ∷ record {
      name = "addOsd";
      is_static = true;
      params = long ∷ bytes ∷ bytes ∷ string ∷ [];
      result = void;
    }
    ∷ record {
      name = "argbIntToNV21Byte";
      is_static = true;
      params = long ∷ ints ∷ int ∷ int ∷ [];
      result = bytes;
    }
    ∷ record {
      name = "argbIntToNV12Byte";
      is_static = true;
      params = long ∷ ints ∷ int ∷ int ∷ [];
      result = bytes;
    }
    ∷ record {
      name = "argbIntToGrayNVByte";
      is_static = true;
      params = long ∷ ints ∷ int ∷ int ∷ [];
      result = bytes;
    }
    ∷ record {
      name = "nv21ToNv12";
      is_static = true;
      params = long ∷ bytes ∷ bytes ∷ int ∷ int ∷ [];
      result = void;
    }
    ∷ []

abbrev pub class_name : String
class_name = "com/wtoe/osd/YuvOsdUtils"

-- `registerNativeMethods`: a class that is not found is passed on as it is.
unfoldable pub register_native_methods : JavaVm → ℤ
register_native_methods vm = vm.register_natives (vm.find_class class_name) (map entry methods)

-- `JNI_OnLoad`
unfoldable pub jni_on_load : JavaVm → ℤ
unfolding register_native_methods
jni_on_load vm =
    if not (is_ok vm.get_env) || not vm.has_env
    then negsuc 0
    else if is_negative (register_native_methods vm)
    then negsuc 0
    else jni_version_1_4
