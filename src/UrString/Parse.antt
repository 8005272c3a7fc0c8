-- ===== src/UrString/Parse.antt =====
-- parse_ur_string of src/utils.c on a well-formed UR.
use c_ur.Base.{ℕ, zero, suc, ◌+◌, ◌*◌, ◌≤◌, ◌<◌, ◌≡◌, ◌≢◌, refl, sym, ap, ◌∙◌, arith}
use c_ur.Base.{Bool, true, List, [], ◌∷◌, ◌++◌, length, All, append_assoc, append-nil, some}
use native.Mathlib.Nat.{one-le-mul}
use c_ur.ByteBuffer.{safe_malloc}
use c_ur.UrString.{
  str_has_prefix, str_to_lower, path_loop, is_ur_type, strdup_all, components_of, parse_lowered,
  parse_ur_string,
}

-- The parts with a slash between each two.
abbrev pub path_text : List ℕ → List (List ℕ) → List ℕ
path_text part [] = part
path_text part (next ∷ parts) = part ++ 47 ∷ path_text next parts

-- Not empty and without a slash.
abbrev pub IsPart : List ℕ → Type 0
IsPart part = (0 < length part) × All (λ c. c ≢ 47) part

path_loop-append :
    (left : ℕ) (part xs rest : List ℕ)
    → All (λ c. c ≢ 47) xs
    → path_loop (suc left) part (xs ++ rest) ≡ path_loop (suc left) (part ++ xs) rest
unfolding path_loop
path_loop-append left [] [] rest h = refl
path_loop-append left (p ∷ part) [] rest h =
    ap (λ (l : List ℕ). path_loop (suc left) l rest) (sym (append-nil (p ∷ part)))
path_loop-append left [] (c ∷ xs) rest h =
    ground (arith, path_loop-append left (c ∷ []) xs rest h.1, h.0)
path_loop-append left (p ∷ part) (c ∷ xs) rest h =
    ground (arith, path_loop-append left (p ∷ part ++ c ∷ []) xs rest h.1, h.0)
    ∙ ap (λ (l : List ℕ). path_loop (suc left) (p ∷ l) rest) (append_assoc part (c ∷ []) xs)

path_loop-end :
    (left : ℕ) (part : List ℕ) → 0 < length part → path_loop (suc left) part [] ≡ part ∷ []
unfolding path_loop
path_loop-end left [] h = absurd (omega arith)
path_loop-end left (p ∷ part) h = refl

path_loop-slash :
    (left : ℕ) (part path : List ℕ)
    → 0 < length part
    → path_loop (suc left) part (47 ∷ path) ≡ part ∷ path_loop left [] path
unfolding path_loop
path_loop-slash left [] path h = absurd (omega arith)
path_loop-slash left (p ∷ part) path h = refl

path_loop-path_text :
    (left : ℕ) (part : List ℕ) (parts : List (List ℕ))
    → IsPart part
    → All IsPart parts
    → length parts ≤ left
    → path_loop (suc left) [] (path_text part parts) ≡ part ∷ parts
path_loop-path_text left part [] h k fuel =
    ap (path_loop (suc left) []) (sym (append-nil part))
    ∙ path_loop-append left [] part [] h.1
    ∙ path_loop-end left part h.0
path_loop-path_text zero part (next ∷ parts) h k fuel = absurd (omega arith)
path_loop-path_text (suc left) part (next ∷ parts) h k fuel =
    path_loop-append (suc left) [] part (47 ∷ path_text next parts) h.1
    ∙ path_loop-slash (suc left) part (path_text next parts) h.0
    ∙ ap (λ (l : List (List ℕ)). part ∷ l)
        (path_loop-path_text left next parts k.0 k.1 (omega arith))

module _ (alloc : ℕ → Bool) (served : (n : ℕ) → alloc n ≡ true) where
  safe_malloc-suc : (n : ℕ) → 0 < n → safe_malloc alloc n ≡ true
  unfolding safe_malloc
  safe_malloc-suc n h = ground (arith, served n)

  strdup_all-eq : (parts : List (List ℕ)) → strdup_all alloc parts ≡ some parts
  unfolding strdup_all
  strdup_all-eq [] = refl
  strdup_all-eq (part ∷ parts) =
      rw (safe_malloc-suc (length part + 1) (omega arith), strdup_all-eq parts)

  module _ (islower isdigit : ℕ → Bool) (pointer_size : ℕ) (positive : 0 < pointer_size) where
    components_of-eq :
        (type c : List ℕ) (cs : List (List ℕ))
        → is_ur_type islower isdigit type ≡ true
        → components_of alloc islower isdigit pointer_size (type ∷ c ∷ cs) ≡ some (type, c ∷ cs)
    unfolding components_of
    components_of-eq type c cs h = rw (
      h,
      safe_malloc-suc (length type + 1) (omega arith),
      safe_malloc-suc (pointer_size * length (c ∷ cs))
          (one-le-mul {a = pointer_size} {b = length (c ∷ cs)} positive (omega arith)),
      strdup_all-eq (c ∷ cs),
    )

    -- When every allocation is served and pointers have a size, a string that lowers to "ur:", a UR
    -- type and one to nine components, each not empty, with a slash before each component and none
    -- inside the parts, is parsed by parse_ur_string into this type and these components.
    pub parse_ur_string-path_text :
        (tolower : ℕ → ℕ) (ur_str type c : List ℕ) (cs : List (List ℕ))
        → str_to_lower tolower ur_str ≡ 117 ∷ 114 ∷ 58 ∷ path_text type (c ∷ cs)
        → is_ur_type islower isdigit type ≡ true
        → IsPart type
        → All IsPart (c ∷ cs)
        → length (c ∷ cs) ≤ 9
        → parse_ur_string alloc islower isdigit pointer_size tolower ur_str ≡ some (type, c ∷ cs)
    unfolding parse_ur_string parse_lowered str_has_prefix
    parse_ur_string-path_text tolower ur_str type c cs lowers h part parts few = rw (
      safe_malloc-suc (length ur_str + 1) (omega arith),
      lowers,
      path_loop-path_text 9 type (c ∷ cs) part parts few,
      components_of-eq type c cs h,
    )
