-- ===== src/Jni/Tests.antt =====
-- A virtual machine that has the three classes of the repository.
use Prim.Native.String.{String}
use text.Mathlib.Text.{◌==◌}
use text.Mathlib.TextEquality.{eq_iff}
use mathlib.Core.HLevel.{×_discrete}
use mathlib.Core.List.{Mem, Subset, Perm, dec_mem, decidable_b_all}
use jrtplib4android.Prelude.{
  ℕ, suc, zero, ◌≡◌, refl, arith, true, List, map, none, some, if◌then◌else◌, Bool-cases, inl, inr,
}
use jrtplib4android.Prelude.Int.{ℤ, pos, negsuc}
use jrtplib4android.Jni.Load.{JavaVm, JavaMethod, Serves, native, entry}
use jrtplib4android.Jni.Tables.{Loads, tables-Loads}
use jrtplib4android.Rtp.Load as Rtp
use jrtplib4android.Rtmp.Load as Rtmp
use jrtplib4android.Osd.Load as Osd

abbrev Entry : Type 0
Entry = String × String

same_text : (s t : String) → Dec (s ≡ t)
same_text s t = elim (Bool-cases (s == t)) [
  | inl e ↦ yes ((eq_iff s t).0 e)
  | inr e ↦ no λ same. ground (arith, eq_iff s t)
]

same_entry : (a b : Entry) → Dec (a ≡ b)
same_entry = ×_discrete same_text same_text

abbrev class_methods : ℕ → List JavaMethod
class_methods zero = Rtp.declared
class_methods (suc zero) = Rtmp.declared
class_methods (suc (suc n)) = Osd.declared

abbrev entries : ℕ → List Entry
entries id = map (λ m. entry (native m)) (class_methods id)

all_known : (id : ℕ) (es : List Entry) → Dec (Subset es (entries id))
all_known id es = decidable_b_all (λ e. dec_mem same_entry e (entries id)) es

abbrev register : ℕ → List Entry → ℤ
register id es = elim (all_known id es) [ yes known ↦ pos 0 | no unknown ↦ negsuc 0 ]

abbrev vm : JavaVm
vm = record {
  get_env = pos 0;
  has_env = true;
  find_class = λ name.
      if name == Rtp.class_name
      then some 0
      else if name == Rtmp.class_name
      then some 1
      else if name == Osd.class_name
      then some 2
      else none;
  register_natives = λ class es. elim class [ none ↦ negsuc 0 | some id ↦ register id es ];
}

register_known : (id : ℕ) (es : List Entry) → Subset es (entries id) → register id es ≡ pos 0
register_known id es known =
    elim (all_known id es) as (λ d. elim d [ yes k ↦ pos 0 | no u ↦ negsuc 0 ] ≡ pos 0) [
      | yes k ↦ refl
      | no u ↦ absurd (u known)
    ]

register_unknown :
    (id : ℕ) (es : List Entry) (e : Entry)
    → Mem e es
    → ¬ Mem e (entries id)
    → (n : ℕ) × (register id es ≡ negsuc n)
register_unknown id es e inside lacks = (
  0,
  elim (all_known id es) as (λ d. elim d [ yes k ↦ pos 0 | no u ↦ negsuc 0 ] ≡ negsuc 0) [
    | yes k ↦ absurd (lacks (k e inside))
    | no u ↦ refl
  ],
)

module _ (class : String) (id : ℕ) (found : vm.find_class class ≡ some id) where
  serves : Serves vm class (class_methods id)
  serves = record {
    env_ok = refl;
    env_given = refl;
    id = id;
    found = found;
    registers = register_known id;
    refuses = register_unknown id;
  }

tables_example :
    Perm Rtp.methods (map native Rtp.declared)
    × Perm Rtmp.methods (map native Rtmp.declared)
    × Perm Osd.methods (map native Osd.declared)
    × Loads ((Rtp.jni_on_load vm).0) Rtp.methods Rtp.declared
    × ((Rtp.jni_on_load vm).1 ≡ vm)
    × Loads (Rtmp.jni_on_load vm) Rtmp.methods Rtmp.declared
    × Loads (Osd.jni_on_load vm) Osd.methods Osd.declared
tables_example =
    tables-Loads vm Rtp.declared Rtmp.declared Osd.declared (serves Rtp.class_name 0 refl)
      (serves Rtmp.class_name 1 refl) (serves Osd.class_name 2 refl)
