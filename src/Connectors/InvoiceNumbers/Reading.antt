-- ===== src/Connectors/InvoiceNumbers/Reading.antt =====
-- What the webhook reads out of a transfer's note, against what the invoice prints.
use mathlib.Core.Option
use mathlib.Core.Path.{subst}
use mathlib.Core.List.{append_assoc, append-nil}
use solodesk.Prelude.{
  ℕ, zero, suc, ◌-◌, ◌/◌, ◌≤◌, ◌<◌, true, false, Option, none, some, List, [], ◌∷◌, ◌++◌, ◌==◌, ◌≡◌,
  ◌≢◌, refl, ap, sym, ◌∙◌, arith, All, All-append, length, replicate, take, drop, length-append,
  length-drop, length-replicate, take-append-drop,
}
use solodesk.Money.{Text, to_string}
use solodesk.Money.Digits.{
  IsDigit, value, value-append, value-zeros, zeros-IsDigit, value-to_string, to_string-IsDigit,
  length-to_string, length-to_string-le,
}
use solodesk.Sales.{InvoiceNumber}
use solodesk.Connectors.InvoiceNumbers.{
  Item, literal, digit, fits, invoice_number_pattern, match_here, extract_invoice_number, pad_start,
  print_invoice_number, number_of,
}

map_none : (o : Option Text) → o ≡ Option.map (λ m. m) o
map_none none = refl
map_none (some m) = refl

map_cons :
    (c : ℕ) (xs : Text) (o : Option Text)
    → Option.map (λ m. c ∷ m) (Option.map (λ m. xs ++ m) o) ≡ Option.map (λ m. c ∷ (xs ++ m)) o
map_cons c xs none = refl
map_cons c xs (some m) = refl

match_step :
    (p : Item) (ps : List Item) (c : ℕ) (s : Text)
    → fits p c ≡ true
    → match_here (p ∷ ps) (c ∷ s) ≡ Option.map (λ m. c ∷ m) (match_here ps s)
unfolding match_here
match_step p ps c s h = rw h refl

match_digits :
    (xs : Text) (ps : List Item) (t : Text)
    → All IsDigit xs
    → match_here (replicate (length xs) digit ++ ps) (xs ++ t)
      ≡ Option.map (λ m. xs ++ m) (match_here ps t)
match_digits [] ps t h = map_none (match_here ps t)
match_digits (c ∷ xs) ps t h =
    match_step digit (replicate (length xs) digit ++ ps) c (xs ++ t) (ground (arith, h.0))
    ∙ ap (Option.map (λ m. c ∷ m)) (match_digits xs ps t h.1)
    ∙ map_cons c xs (match_here ps t)

match_exactly :
    (k : ℕ) (xs : Text) (ps : List Item) (t : Text)
    → length xs ≡ k
    → All IsDigit xs
    → match_here (replicate k digit ++ ps) (xs ++ t) ≡ Option.map (λ m. xs ++ m) (match_here ps t)
match_exactly k xs ps t e h =
    subst
      (λ k.
        match_here (replicate k digit ++ ps) (xs ++ t)
        ≡ Option.map (λ m. xs ++ m) (match_here ps t))
      e (match_digits xs ps t h)

-- The text of a number with the given digits.
abbrev numbered : Text → Text → Text
numbered ys cs = b'I' ∷ b'N' ∷ b'V' ∷ b'-' ∷ ys ++ (b'-' ∷ cs)

-- Four digits, a dash, and at least six digits: the match ends behind the sixth.
match_numbered :
    (ys cs post : Text)
    → length ys ≡ 4
    → All IsDigit ys
    → length cs ≡ 6
    → All IsDigit cs
    → match_here invoice_number_pattern (numbered ys (cs ++ post)) ≡ some (numbered ys cs)
unfolding match_here
match_numbered ys cs post ly hy lc hc =
    let counter : match_here (replicate 6 digit) (cs ++ post) ≡ some cs =
      match_exactly 6 cs [] post lc hc ∙ ap some (append-nil cs) in
    rw
      (
        match_exactly 4 ys (literal b'-' ∷ replicate 6 digit) (b'-' ∷ (cs ++ post)) ly hy,
        match_here,
        counter,
      )
      refl

-- What precedes without an `I` is passed over.
extract-skip :
    (pre s m : Text)
    → All (λ c. c ≢ b'I') pre
    → extract_invoice_number s ≡ some m
    → extract_invoice_number (pre ++ s) ≡ some m
unfolding extract_invoice_number match_here
extract-skip [] s m h e = e
extract-skip (c ∷ pre) s m h e =
    let other : (c == b'I') ≡ false = ground (arith, h.0) in
    rw (other, extract-skip pre s m h.1 e) refl

extract-numbered :
    (pre ys cs post : Text)
    → All (λ c. c ≢ b'I') pre
    → length ys ≡ 4
    → All IsDigit ys
    → length cs ≡ 6
    → All IsDigit cs
    → extract_invoice_number (pre ++ numbered ys (cs ++ post)) ≡ some (numbered ys cs)
unfolding extract_invoice_number
extract-numbered pre ys cs post h ly hy lc hc =
    extract-skip pre (numbered ys (cs ++ post)) (numbered ys cs) h
      (rw (match_numbered ys cs post ly hy lc hc) refl)

number_of-numbered :
    (ys cs : Text)
    → length ys ≡ 4
    → number_of (numbered ys cs) ≡ record { year = value 0 ys; counter = value 0 cs }
unfolding number_of
number_of-numbered [] cs e = absurd (omega arith)
number_of-numbered (a ∷ []) cs e = absurd (omega arith)
number_of-numbered (a ∷ b ∷ []) cs e = absurd (omega arith)
number_of-numbered (a ∷ b ∷ c ∷ []) cs e = absurd (omega arith)
number_of-numbered (a ∷ b ∷ c ∷ d ∷ []) cs e = refl
number_of-numbered (a ∷ b ∷ c ∷ d ∷ f ∷ ys) cs e = absurd (omega arith)

length-pad_start : (w : ℕ) (s : Text) → length s ≤ w → length (pad_start w s) ≡ w
unfolding pad_start
length-pad_start w s h = omega (
  arith,
  length-append (replicate (w - length s) b'0') s,
  length-replicate {A = ℕ} (w - length s) b'0',
)

pad_start-IsDigit : (w : ℕ) (s : Text) → All IsDigit s → All IsDigit (pad_start w s)
unfolding pad_start
pad_start-IsDigit w s h =
    All-append IsDigit (replicate (w - length s) b'0') s (zeros-IsDigit (w - length s)) h

value-pad_start : (w : ℕ) (s : Text) → value 0 (pad_start w s) ≡ value 0 s
unfolding pad_start
value-pad_start w s =
    value-append (replicate (w - length s) b'0') s 0
    ∙ ap (λ (a : ℕ). value a s) (value-zeros (w - length s) 0 ∙ omega arith)

numbered-append : (ys cs post : Text) → numbered ys cs ++ post ≡ numbered ys (cs ++ post)
numbered-append ys cs post =
    ap (λ (t : Text). b'I' ∷ b'N' ∷ b'V' ∷ b'-' ∷ t) (append_assoc ys (b'-' ∷ cs) post)

-- A note that holds a printed invoice number, behind a text with no `I`: the number found in it is
-- the whole printed text, and spells the invoice's year and counter, when the year has four digits
-- and the counter at most six.
pub extract-print_invoice_number :
    (n : InvoiceNumber) (pre post : Text)
    → 1000 ≤ n.year
    → n.year < 10000
    → n.counter < 1000000
    → All (λ c. c ≢ b'I') pre
    → (extract_invoice_number (pre ++ (print_invoice_number n ++ post))
        ≡ some (print_invoice_number n))
      × (number_of (print_invoice_number n) ≡ n)
unfolding print_invoice_number
extract-print_invoice_number n pre post lo hi small clear =
    let ys = to_string n.year in
    let cs = pad_start 6 (to_string n.counter) in
    let four = length-to_string n.year 3 lo hi in
    let six = length-pad_start 6 (to_string n.counter) (length-to_string-le n.counter 5 small) in
    (
      rw (numbered-append ys cs post) (
          extract-numbered pre ys cs post clear four (to_string-IsDigit n.year) six
            (pad_start-IsDigit 6 (to_string n.counter) (to_string-IsDigit n.counter))),
      rw
          (
            number_of-numbered ys cs four,
            value-pad_start,
            value-to_string n.year,
            value-to_string n.counter,
          )
          refl,
    )

All-take : (k : ℕ) (s : Text) → All IsDigit s → All IsDigit (take k s)
All-take zero s h = tt
All-take (suc k) [] h = tt
All-take (suc k) (c ∷ s) h = (h.0, All-take k s h.1)

All-drop : (k : ℕ) (s : Text) → All IsDigit s → All IsDigit (drop k s)
All-drop zero s h = h
All-drop (suc k) [] h = tt
All-drop (suc k) (c ∷ s) h = All-drop k s h.1

value_last : (s t : Text) → length t ≡ 1 → All IsDigit t → value 0 s ≡ value 0 (s ++ t) / 10
value_last s [] e h = absurd (omega arith)
value_last s (c ∷ []) e h = rw (value-append s (c ∷ []) 0) (omega arith)
value_last s (c ∷ d ∷ t) e h = absurd (omega arith)

-- The six digits that the pattern takes of seven.
length-take_six : (s : Text) → length s ≡ 7 → (length (take 6 s) ≡ 6) × (length (drop 6 s) ≡ 1)
length-take_six s e =
    let last = length-drop 6 s in
    (
      omega (arith, e, last, ap length (take-append-drop 6 s), length-append (take 6 s) (drop 6 s)),
      omega (arith, e, last),
    )

-- A note that holds a printed invoice number whose counter has seven digits, behind a text with no
-- `I`: the number found in it is that of another counter, the tenth part of this one.
pub extract-print_invoice_number_long :
    (n : InvoiceNumber) (pre post : Text)
    → 1000 ≤ n.year
    → n.year < 10000
    → 1000000 ≤ n.counter
    → n.counter < 10000000
    → All (λ c. c ≢ b'I') pre
    → Option.map number_of (extract_invoice_number (pre ++ (print_invoice_number n ++ post)))
      ≡ some (record n { counter = n.counter / 10 })
unfolding print_invoice_number pad_start
extract-print_invoice_number_long n pre post lo hi large below clear =
    let ys = to_string n.year in
    let cs = to_string n.counter in
    let four = length-to_string n.year 3 lo hi in
    let seven = length-to_string n.counter 6 large below in
    let parts = length-take_six cs seven in
    let ds = to_string-IsDigit n.counter in
    let tenth : value 0 (take 6 cs) ≡ n.counter / 10 =
      value_last (take 6 cs) (drop 6 cs) parts.1 (All-drop 6 cs ds)
      ∙ ap (λ (s : Text). value 0 s / 10) (take-append-drop 6 cs)
      ∙ ap (λ (k : ℕ). k / 10) (value-to_string n.counter) in
    let whole : pad_start 6 cs ≡ take 6 cs ++ drop 6 cs =
      ap (λ (k : ℕ). replicate (6 - k) b'0' ++ cs) seven ∙ sym (take-append-drop 6 cs) in
    rw
      (
        numbered-append ys (pad_start 6 cs) post,
        whole,
        append_assoc (take 6 cs) (drop 6 cs) post,
        extract-numbered pre ys (take 6 cs) (drop 6 cs ++ post) clear four
            (to_string-IsDigit n.year) parts.0 (All-take 6 cs ds),
      )
      (ap some (number_of-numbered ys (take 6 cs) four ∙ rw (value-to_string n.year, tenth) refl))
