-- ===== src/Jni.antt =====
-- The Java virtual machine as the handles call it: what it lends of its strings and arrays, and what
-- is given back. The calls made so far are kept with those of the mutex, the newest first.
pub mod Load
pub mod Tables
mod Tests
use jrtplib4android.Prelude.{
  ℕ, suc, ◌+◌, ◌≡◌, Bool, true, false, List, [], ◌∷◌, ◌==◌, if◌then◌else◌, arith,
}

-- What is lent of the object behind a reference: `GetStringUTFChars`, `GetStringChars`,
-- `GetByteArrayElements` and `GetIntArrayElements`.
pub data Loan : Type 0 where
  utf_chars chars byte_elements int_elements : ℕ → Loan

pub data HostCall : Type 0 where
  get release : Loan → HostCall
  lock unlock : HostCall
  new_byte_array : ℕ → HostCall
  set_byte_array_region : List ℕ → HostCall

-- A reference of Java and the elements that are lent of it.
pub record Object : Type 0 where
  pub ref : ℕ
  pub elements : List ℕ

-- Loans that are taken one after the other, and given back in the same order.
unfoldable pub get_all : List Loan → List HostCall → List HostCall
get_all [] calls = calls
get_all (l ∷ ls) calls = get_all ls (get l ∷ calls)

unfoldable pub release_all : List Loan → List HostCall → List HostCall
release_all [] calls = calls
release_all (l ∷ ls) calls = release_all ls (release l ∷ calls)

abbrev pub same : Loan → Loan → Bool
same (utf_chars r) (utf_chars s) = r == s
same (chars r) (chars s) = r == s
same (byte_elements r) (byte_elements s) = r == s
same (int_elements r) (int_elements s) = r == s
same l m = false

-- How many times a loan was taken, and how many times it was given back.
abbrev pub taken : Loan → List HostCall → ℕ
taken l [] = 0
taken l (get m ∷ calls) = if same l m then suc (taken l calls) else taken l calls
taken l (c ∷ calls) = taken l calls

abbrev pub given : Loan → List HostCall → ℕ
given l [] = 0
given l (release m ∷ calls) = if same l m then suc (given l calls) else given l calls
given l (c ∷ calls) = given l calls

-- `n` times more was a loan taken than given back.
abbrev pub Keeps : ℕ → Loan → (before after : List HostCall) → Type 0
Keeps n l before after = taken l after + given l before ≡ n + (taken l before + given l after)

-- Every loan was given back exactly as often as it was taken.
abbrev pub GivesBack : (before after : List HostCall) → Type 0
GivesBack before after = (l : Loan) → Keeps 0 l before after

abbrev times : Loan → List Loan → ℕ
times l [] = 0
times l (m ∷ ms) = if same l m then suc (times l ms) else times l ms

counts-get_all :
    (l : Loan) (ls : List Loan) (calls : List HostCall)
    → (taken l (get_all ls calls) ≡ times l ls + taken l calls)
      × (given l (get_all ls calls) ≡ given l calls)
unfolding get_all
counts-get_all l [] calls = (omega arith, omega arith)
counts-get_all l (m ∷ ls) calls = ground (arith, counts-get_all l ls (get m ∷ calls))

counts-release_all :
    (l : Loan) (ls : List Loan) (calls : List HostCall)
    → (taken l (release_all ls calls) ≡ taken l calls)
      × (given l (release_all ls calls) ≡ times l ls + given l calls)
unfolding release_all
counts-release_all l [] calls = (omega arith, omega arith)
counts-release_all l (m ∷ ls) calls = ground (arith, counts-release_all l ls (release m ∷ calls))

pub release-GivesBack :
    (ls : List Loan) (calls : List HostCall) → GivesBack calls (release_all ls (get_all ls calls))
release-GivesBack ls calls l =
    omega (arith, counts-release_all l ls (get_all ls calls), counts-get_all l ls calls)

pub same_refl : (l : Loan) → same l l ≡ true
same_refl (utf_chars r) = ground arith
same_refl (chars r) = ground arith
same_refl (byte_elements r) = ground arith
same_refl (int_elements r) = ground arith
