-- ===== src/Jni/Tables.antt =====
-- The tables of native methods against the classes of Java, and what the loading of a library returns.
use Prim.Native.String.{String}
use mathlib.Core.List.{Mem, Subset, Perm, perm_middle}
use mathlib.Core.List.Perm
use jrtplib4android.Prelude.{◌≡◌, refl, List, [], map, take, drop, not, ◌||◌, if◌then◌else◌}
use jrtplib4android.Prelude.Int.{ℤ, negsuc, is_negative}
use jrtplib4android.Jni.Load.{
  JavaVm, JavaMethod, NativeMethod, Serves, native, entry, jni_version_1_4, is_ok,
}
use jrtplib4android.Rtp.Load as Rtp
use jrtplib4android.Rtmp.Load as Rtmp
use jrtplib4android.Osd.Load as Osd

abbrev entries : List JavaMethod → List (String × String)
entries declared = map (λ m. entry (native m)) declared

-- What a library returns to a virtual machine whose class declares these methods: the version of the
-- interface if the class declares each method of the table, and -1 if it lacks one.
abbrev pub Loads : ℤ → List NativeMethod → List JavaMethod → Type 0
Loads result methods declared =
    (Subset (map entry methods) (entries declared) → result ≡ jni_version_1_4)
    × ((n : NativeMethod)
        → Mem (entry n) (map entry methods)
        → ¬ Mem (entry n) (entries declared)
        → result ≡ negsuc 0)

abbrev loading : JavaVm → ℤ → ℤ
loading vm registered =
    if not (is_ok vm.get_env) || not vm.has_env
    then negsuc 0
    else if is_negative registered
    then negsuc 0
    else jni_version_1_4

Serves-Loads :
    (vm : JavaVm) (class : String) (declared : List JavaMethod) (methods : List NativeMethod)
    → Serves vm class declared
    → Loads
        (loading vm (vm.register_natives (vm.find_class class) (map entry methods)))
        methods
        declared
Serves-Loads vm class declared methods s = (
  λ all. rw (s.env_ok, s.env_given, s.found, s.registers (map entry methods) all) refl,
  λ n inside lacks.
      let (k, e) = s.refuses (map entry methods) (entry n) inside lacks in
      rw (s.env_ok, s.env_given, s.found, e) refl,
)

-- Each table has, in some order, exactly one native method for each that the class of Java declares:
-- of its name, under the signature that its types are written as, with a function of C that takes and
-- returns what these types are in C. A virtual machine with a class of each name loads a library if
-- the class declares all methods of its table, and is told -1 if the class lacks one.
pub tables-Loads :
    (vm : JavaVm) (rtp rtmp osd : List JavaMethod)
    → Serves vm Rtp.class_name rtp
    → Serves vm Rtmp.class_name rtmp
    → Serves vm Osd.class_name osd
    → Perm Rtp.methods (map native Rtp.declared)
      × Perm Rtmp.methods (map native Rtmp.declared)
      × Perm Osd.methods (map native Osd.declared)
      × Loads ((Rtp.jni_on_load vm).0) Rtp.methods rtp
      × ((Rtp.jni_on_load vm).1 ≡ vm)
      × Loads (Rtmp.jni_on_load vm) Rtmp.methods rtmp
      × Loads (Osd.jni_on_load vm) Osd.methods osd
unfolding Rtp.jni_on_load Rtmp.jni_on_load Osd.jni_on_load
tables-Loads vm rtp rtmp osd serves_rtp serves_rtmp serves_osd = (
  Perm.refl Rtp.methods,
  Perm.cons _ (Perm.symm (perm_middle (map native (take 4 (drop 1 Rtmp.declared))) [])),
  Perm.refl Osd.methods,
  Serves-Loads vm Rtp.class_name rtp Rtp.methods serves_rtp,
  refl,
  Serves-Loads vm Rtmp.class_name rtmp Rtmp.methods serves_rtmp,
  Serves-Loads vm Osd.class_name osd Osd.methods serves_osd,
)
