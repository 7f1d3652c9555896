-- ===== src/Jni/Load.antt =====
-- Native methods: the types of Java and of jni.h, the descriptors of Java's types, the tables of the
-- libraries, and the virtual machine that loads them.
use Prim.Native.String.{String, ◌++◌ as ◌<>◌}
use mathlib.Core.List.{Mem, Subset}
use jrtplib4android.Prelude.{
  ℕ, ◌≡◌, Bool, true, false, ◌==◌, Option, some, List, [], ◌∷◌, map, if◌then◌else◌,
}
use jrtplib4android.Prelude.Int.{ℤ, pos, negsuc}

pub data JavaType : Type 0 where
  void boolean int long string bytes ints : JavaType
  instance_of : String → JavaType

-- A method that a class of Java declares `native`.
pub record JavaMethod : Type 0 where
  pub name : String
  pub is_static : Bool
  pub params : List JavaType
  pub result : JavaType

-- The types of jni.h, and the type of a function of C that a native method calls, behind `JNIEnv *`.
pub data CType : Type 0 where
  jvoid jboolean jint jlong jstring jbyte_array jint_array jobject jclass : CType

pub record CFunction : Type 0 where
  pub params : List CType
  pub result : CType

-- `JNINativeMethod`: of the function, its type.
pub record NativeMethod : Type 0 where
  pub name : String
  pub signature : String
  pub fn_ptr : CFunction

-- What the interface of Java and C asks of the native method behind a method of Java.
abbrev pub descriptor : JavaType → String
descriptor void = "V"
descriptor boolean = "Z"
descriptor int = "I"
descriptor long = "J"
descriptor string = "Ljava/lang/String;"
descriptor bytes = "[B"
descriptor ints = "[I"
descriptor (instance_of class) = "L" <> (class <> ";")

abbrev descriptors : List JavaType → String
descriptors [] = ""
descriptors (t ∷ ts) = descriptor t <> descriptors ts

abbrev pub c_type : JavaType → CType
c_type void = jvoid
c_type boolean = jboolean
c_type int = jint
c_type long = jlong
c_type string = jstring
c_type bytes = jbyte_array
c_type ints = jint_array
c_type (instance_of class) = jobject

abbrev pub native : JavaMethod → NativeMethod
native m = record {
  name = m.name;
  signature = "(" <> (descriptors m.params <> (")" <> descriptor m.result));
  fn_ptr = record {
    params = (if m.is_static then jclass else jobject) ∷ map c_type m.params;
    result = c_type m.result;
  };
}

-- What the virtual machine looks at when a method is registered.
abbrev pub entry : NativeMethod → String × String
entry n = (n.name, n.signature)

-- The virtual machine while a library is loaded: the status of `GetEnv` and whether it gives an
-- environment, `FindClass` (`none` is `NULL`) and the status of `RegisterNatives`.
pub record JavaVm : Type 0 where
  pub get_env : ℤ
  pub has_env : Bool
  pub find_class : String → Option ℕ
  pub register_natives : Option ℕ → List (String × String) → ℤ

abbrev pub jni_version_1_4 : ℤ
jni_version_1_4 = pos 0x10004

-- `== JNI_OK`
abbrev pub is_ok : ℤ → Bool
is_ok (pos n) = n == 0
is_ok (negsuc n) = false

-- A virtual machine that has a class with these native methods: as its documentation says, it
-- registers what the class declares, and refuses a table with anything else.
pub record Serves (vm : JavaVm) (class : String) (declared : List JavaMethod) : Type 0 where
  pub env_ok : vm.get_env ≡ pos 0
  pub env_given : vm.has_env ≡ true
  pub id : ℕ
  pub found : vm.find_class class ≡ some id
  pub registers :
      (es : List (String × String))
      → Subset es (map (λ m. entry (native m)) declared)
      → vm.register_natives (some id) es ≡ pos 0
  pub refuses :
      (es : List (String × String)) (e : String × String)
      → Mem e es
      → ¬ Mem e (map (λ m. entry (native m)) declared)
      → (n : ℕ) × (vm.register_natives (some id) es ≡ negsuc n)
