-- ===== src/Prelude/Bytes.antt =====
-- C buffers as lists of bytes. A read or a write outside the buffer is `none`, a fault.
use jrtplib4android.Prelude.{
  Bool, true, false, ◌==◌, ℕ, zero, suc, ◌+◌, ◌-◌, ◌≤◌, ◌<◌, ◌≡◌, refl, ◌∙◌, ap, Option, none, some,
  List, [], ◌∷◌, ◌++◌, arith, leb, if◌then◌else◌, length, take, drop, length-take, length-append,
  get_elem?, length-drop, ltb, set, sym, append-nil,
}

-- A step after one that may fault.
infixl 5 ◌>>=◌
abbrev pub ◌>>=◌ {ℓ κ} : {A : Type ℓ} {B : Type κ} → Option A → (A → Option B) → Option B
none >>= f = none
some a >>= f = f a

-- `memcpy(out, src + from, n)`: the `n` bytes of `src` from `from` on.
unfoldable pub slice : List ℕ → ℕ → ℕ → Option (List ℕ)
slice src from n = if leb (from + n) (length src) then some (take n (drop from src)) else none

-- `memcpy(dst + at, src, length src)`.
unfoldable pub blit : List ℕ → ℕ → List ℕ → Option (List ℕ)
blit dst at src =
    if leb (at + length src) (length dst)
    then some (take at dst ++ (src ++ drop (at + length src) dst))
    else none

-- `dst[at] = v`
unfoldable pub put : List ℕ → ℕ → ℕ → Option (List ℕ)
put dst at v = if ltb at (length dst) then some (set dst at v) else none

-- Compares bytes from the first on, and stops at the first that differs.
unfoldable pub begins_with : List ℕ → List ℕ → Option Bool
begins_with buf [] = some true
begins_with [] (c ∷ code) = none
begins_with (b ∷ buf) (c ∷ code) = if b == c then begins_with buf code else some false

pub take-length {ℓ} : {A : Type ℓ} (xs ys : List A) → take (length xs) (xs ++ ys) ≡ xs
take-length [] ys = refl
take-length (x ∷ xs) ys = ap (λ t. x ∷ t) (take-length xs ys)

pub take-append_le {ℓ} :
    {A : Type ℓ} (n : ℕ) (xs ys : List A) → n ≤ length xs → take n (xs ++ ys) ≡ take n xs
take-append_le zero xs ys h = refl
take-append_le (suc n) [] ys h = absurd (omega arith)
take-append_le (suc n) (x ∷ xs) ys h = ap (λ t. x ∷ t) (take-append_le n xs ys (omega arith))

pub take-all {ℓ} : {A : Type ℓ} (n : ℕ) (xs : List A) → length xs ≤ n → take n xs ≡ xs
take-all zero [] h = refl
take-all zero (x ∷ xs) h = absurd (omega arith)
take-all (suc n) [] h = refl
take-all (suc n) (x ∷ xs) h = ap (λ t. x ∷ t) (take-all n xs (omega arith))

drop-nil {ℓ} : {A : Type ℓ} (n : ℕ) → ◌≡◌ {A = List A} (drop n []) []
drop-nil zero = refl
drop-nil (suc n) = refl

take-nil {ℓ} : {A : Type ℓ} (n : ℕ) → ◌≡◌ {A = List A} (take n []) []
take-nil zero = refl
take-nil (suc n) = refl

pub drop-drop {ℓ} : {A : Type ℓ} (a b : ℕ) (xs : List A) → drop a (drop b xs) ≡ drop (b + a) xs
drop-drop a zero xs = let e : a ≡ 0 + a = omega arith in ap (λ k. drop k xs) e
drop-drop a (suc b) [] = rw (drop-nil a, drop-nil (suc b + a))
drop-drop a (suc b) (x ∷ xs) =
    let e : suc (b + a) ≡ suc b + a = omega arith in drop-drop a b xs ∙ ap (λ k. drop k (x ∷ xs)) e

-- Two adjacent slices are one longer slice.
pub take-drop_split {ℓ} :
    {A : Type ℓ} (a b : ℕ) (xs : List A) → take a xs ++ take b (drop a xs) ≡ take (a + b) xs
take-drop_split zero b xs = let e : b ≡ 0 + b = omega arith in ap (λ k. take k xs) e
take-drop_split (suc a) b [] = rw (take-nil b, take-nil (suc a + b))
take-drop_split (suc a) b (x ∷ xs) =
    let e : suc (a + b) ≡ suc a + b = omega arith in
    ap (λ t. x ∷ t) (take-drop_split a b xs) ∙ ap (λ k. take k (x ∷ xs)) e

-- A slice within the bounds is read.
pub slice-in :
    (src : List ℕ) (from n : ℕ)
    → from + n ≤ length src
    → slice src from n ≡ some (take n (drop from src))
unfolding slice
slice-in src from n h = ground arith

-- A slice past the end is a fault.
pub slice-out : (src : List ℕ) (from n : ℕ) → length src < from + n → slice src from n ≡ none
unfolding slice
slice-out src from n h = ground arith

-- A write within the bounds replaces those bytes.
pub blit-in :
    (dst : List ℕ) (at : ℕ) (src : List ℕ)
    → at + length src ≤ length dst
    → blit dst at src ≡ some (take at dst ++ (src ++ drop (at + length src) dst))
unfolding blit
blit-in dst at src h = ground arith

-- A write past the end is a fault.
pub blit-out :
    (dst : List ℕ) (at : ℕ) (src : List ℕ) → length dst < at + length src → blit dst at src ≡ none
unfolding blit
blit-out dst at src h = ground arith

pub length-slice :
    (src : List ℕ) (from n : ℕ) → from + n ≤ length src → length (take n (drop from src)) ≡ n
length-slice src from n h = omega (arith, length-take n (drop from src), length-drop from src)

-- Reading behind a prefix.
pub get_elem?-append {ℓ} :
    {A : Type ℓ} (xs ys : List A) (i j : ℕ)
    → i ≡ length xs + j
    → get_elem? (xs ++ ys) i ≡ get_elem? ys j
get_elem?-append [] ys i j e = ap (λ k. get_elem? ys k) (e ∙ zero_plus j)
  where
    zero_plus : (n : ℕ) → 0 + n ≡ n
    zero_plus n = omega arith
get_elem?-append (x ∷ xs) ys zero j e = absurd (omega arith)
get_elem?-append (x ∷ xs) ys (suc i) j e = get_elem?-append xs ys i j (omega arith)

pub drop-length {ℓ} : {A : Type ℓ} (xs ys : List A) (i : ℕ) → i ≡ length xs → drop i (xs ++ ys) ≡ ys
drop-length [] ys i e = ap (λ k. drop k ys) e
drop-length (x ∷ xs) ys zero e = absurd (omega arith)
drop-length (x ∷ xs) ys (suc i) e = drop-length xs ys i (omega arith)

-- The middle part of a list is read back.
pub slice-middle :
    (xs ys zs : List ℕ) (i n : ℕ)
    → i ≡ length xs
    → n ≡ length ys
    → slice (xs ++ (ys ++ zs)) i n ≡ some ys
slice-middle xs ys zs i n e e' =
    slice-in (xs ++ (ys ++ zs)) i n
      (omega (arith, length-append xs (ys ++ zs), length-append ys zs))
    ∙ ap some (rw (drop-length xs (ys ++ zs) i e, e') (take-length ys zs))

-- A prefix that reaches into the second list.
pub take-past {ℓ} :
    {A : Type ℓ} (n : ℕ) (xs ys : List A)
    → length xs ≤ n
    → take n (xs ++ ys) ≡ xs ++ take (n - length xs) ys
take-past n [] ys h = let e : n ≡ n - 0 = omega arith in ap (λ k. take k ys) e
take-past zero (x ∷ xs) ys h = absurd (omega arith)
take-past (suc n) (x ∷ xs) ys h =
    let e : n - length xs ≡ suc n - suc (length xs) = omega arith in
    ap (λ t. x ∷ t) (take-past n xs ys (omega arith)) ∙ ap (λ k. x ∷ (xs ++ take k ys)) e

-- A byte within the bounds is written.
pub put-in : (dst : List ℕ) (at v : ℕ) → at < length dst → put dst at v ≡ some (set dst at v)
unfolding put
put-in dst at v h = ground arith

-- A byte within the bounds is there to be read.
pub get_elem?-in {ℓ} :
    {A : Type ℓ} (xs : List A) (i : ℕ) → i < length xs → (a : A) × (get_elem? xs i ≡ some a)
get_elem?-in [] i h = absurd (omega arith)
get_elem?-in (x ∷ xs) zero h = (x, refl)
get_elem?-in (x ∷ xs) (suc i) h = get_elem?-in xs i (omega arith)

-- Reading inside a copied prefix.
pub get_elem?-take-append {ℓ} :
    {A : Type ℓ} (n : ℕ) (xs ys : List A) (i : ℕ)
    → n ≤ length xs
    → i < n
    → get_elem? (take n xs ++ ys) i ≡ get_elem? xs i
get_elem?-take-append zero xs ys i h k = absurd (omega arith)
get_elem?-take-append (suc n) [] ys i h k = absurd (omega arith)
get_elem?-take-append (suc n) (x ∷ xs) ys zero h k = refl
get_elem?-take-append (suc n) (x ∷ xs) ys (suc i) h k =
    get_elem?-take-append n xs ys i (omega arith) (omega arith)

pub get_elem?-drop {ℓ} :
    {A : Type ℓ} (m : ℕ) (xs : List A) (i : ℕ) → get_elem? (drop m xs) i ≡ get_elem? xs (m + i)
get_elem?-drop zero xs i = let e : i ≡ 0 + i = omega arith in ap (λ k. get_elem? xs k) e
get_elem?-drop (suc m) [] i = refl
get_elem?-drop (suc m) (x ∷ xs) i =
    let e : suc (m + i) ≡ suc m + i = omega arith in
    get_elem?-drop m xs i ∙ ap (λ k. get_elem? (x ∷ xs) k) e

-- Reading inside a slice.
pub get_elem?-slice :
    (xs : List ℕ) (m n i : ℕ)
    → m + n ≤ length xs
    → i < n
    → get_elem? (take n (drop m xs)) i ≡ get_elem? xs (m + i)
get_elem?-slice xs m n i h k =
    ap (λ l. get_elem? l i) (sym (append-nil (take n (drop m xs))))
    ∙ (get_elem?-take-append n (drop m xs) [] i (omega (arith, length-drop m xs)) k
        ∙ get_elem?-drop m xs i)

-- What is read is inside.
pub get_elem?-some {ℓ} :
    {A : Type ℓ} (xs : List A) (i : ℕ) (a : A) → get_elem? xs i ≡ some a → i < length xs
get_elem?-some [] i a e = absurd (ground arith)
get_elem?-some (x ∷ xs) zero a e = omega arith
get_elem?-some (x ∷ xs) (suc i) a e = omega (arith, get_elem?-some xs i a e)
