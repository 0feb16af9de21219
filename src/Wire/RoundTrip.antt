-- ===== src/Wire/RoundTrip.antt =====
-- core/NDimensionalIpcRunner.cxx: lists of numbers, written and read.
use ndmspc.Base.{
  ℕ, ◌≡◌, ◌≢◌, refl, ap, ◌∙◌, sym, ◌==◌, true, false, List, [], ◌∷◌, ◌++◌, map, Option, some, Bytes,
  arith, All, append-nil, append_assoc, All-append,
}
use ndmspc.Wire.Defs.{split, join_with, serialize_coords, parse_all, parse_coords, cut}

-- No character of the text is the separator.
abbrev pub IsClear : ℕ → Bytes → Type 0
IsClear separator text = All (λ c. (c == separator) ≡ false) text

-- A text that a list with this separator can hold.
abbrev pub IsToken : ℕ → Bytes → Type 0
IsToken separator text = (text ≢ []) × IsClear separator text

split-append :
    (s : ℕ) (current t rest : Bytes)
    → IsClear s t
    → split s current (t ++ rest) ≡ split s (current ++ t) rest
unfolding split
split-append s current [] rest h = ap (λ x. split s x rest) (sym (append-nil current))
split-append s current (c ∷ cs) rest h =
    rw (h.0, split)
      (split-append s (current ++ c ∷ []) cs rest h.1
        ∙ ap (λ x. split s x rest) (append_assoc current (c ∷ []) cs))

split-token : (s : ℕ) (t : Bytes) → IsToken s t → split s [] t ≡ t ∷ []
unfolding split
split-token s [] h = absurd (h.0 refl)
split-token s (c ∷ cs) h =
    ap (split s []) (sym (append-nil (c ∷ cs))) ∙ split-append s [] (c ∷ cs) [] h.1

split-cons :
    (s : ℕ) (t rest : Bytes) → IsToken s t → split s [] (t ++ s ∷ rest) ≡ t ∷ split s [] rest
unfolding split
split-cons s [] rest h = absurd (h.0 refl)
split-cons s (c ∷ cs) rest h = split-append s [] (c ∷ cs) (s ∷ rest) h.1 ∙ rw (same s, split) refl
  where
    same : (n : ℕ) → (n == n) ≡ true
    same n = ground arith

-- A list of texts that are not empty and do not have the separator is read back as it was, for
-- `SerializeTaskIds` and the commas too.
pub split-join_with :
    (s : ℕ) (ts : List Bytes) → All (IsToken s) ts → split s [] (join_with s ts) ≡ ts
unfolding join_with
split-join_with s [] h = unfold split in refl
split-join_with s (t ∷ []) h = split-token s t h.0
split-join_with s (t ∷ u ∷ ts) h =
    split-cons s t (join_with s (u ∷ ts)) h.0 ∙ ap (◌∷◌ t) (split-join_with s (u ∷ ts) h.1)

-- What is asked of how one number is printed and read, for a list with this separator.
abbrev pub IsPrinted : {A : Type 0} → (A → Bytes) → (Bytes → Option A) → ℕ → A → Type 0
IsPrinted print parse separator n = (parse (print n) ≡ some n) × IsToken separator (print n)

module _ {A : Type 0} (print : A → Bytes) (parse : Bytes → Option A) where
  parse_all-map :
      (ns : List A) → All (IsPrinted print parse b',') ns → parse_all parse (map print ns) ≡ some ns
  unfolding parse_all
  parse_all-map [] h = refl
  parse_all-map (n ∷ ns) h = rw (h.0.0, parse_all-map ns h.1) refl

  printed_tokens :
      (s : ℕ) (ns : List A) → All (IsPrinted print parse s) ns → All (IsToken s) (map print ns)
  printed_tokens s [] h = tt
  printed_tokens s (n ∷ ns) h = (h.0.1, printed_tokens s ns h.1)

  -- `ParseCoords` reads back what `SerializeCoords` wrote, and `ParseIds` what `SerializeIds` wrote,
  -- if each number of the list is read back and is printed as a text with no comma that is not empty.
  pub parse_coords-serialize_coords :
      (ns : List A)
      → All (IsPrinted print parse b',') ns
      → parse_coords parse (serialize_coords print ns) ≡ some ns
  unfolding parse_coords serialize_coords
  parse_coords-serialize_coords ns h =
      ap (parse_all parse) (split-join_with b',' (map print ns) (printed_tokens b',' ns h))
      ∙ parse_all-map ns h

pub cut-append : (s : ℕ) (t rest : Bytes) → IsClear s t → cut s (t ++ s ∷ rest) ≡ some (t, rest)
unfolding cut
cut-append s [] rest h = rw (same s, cut) refl
  where
    same : (n : ℕ) → (n == n) ≡ true
    same n = ground arith
cut-append s (c ∷ cs) rest h = rw (h.0, cut, cut-append s cs rest h.1) refl

pub join_with-IsClear :
    (s separator : ℕ) (ts : List Bytes)
    → (separator == s) ≡ false
    → All (IsClear s) ts
    → IsClear s (join_with separator ts)
unfolding join_with
join_with-IsClear s separator [] d h = tt
join_with-IsClear s separator (t ∷ []) d h = h.0
join_with-IsClear s separator (t ∷ u ∷ ts) d h =
    All-append (λ c. (c == s) ≡ false) t (separator ∷ join_with separator (u ∷ ts)) h.0
      (d, join_with-IsClear s separator (u ∷ ts) d h.1)
