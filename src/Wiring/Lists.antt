-- ===== src/Wiring/Lists.antt =====
-- A list of identifiers, written with commas and read back.
use ripestream.Base.{
  ℕ, zero, suc, ◌+◌, ◌-◌, ◌*◌, ◌/◌, ◌%◌, ◌^◌, ◌<◌, ◌≡◌, refl, ap, sym, ◌∙◌, true, false, ltb, ◌==◌,
  List, [], ◌∷◌, ◌++◌, map, some, Bytes, arith, All, All-append, Bool-cases, inl, inr,
}
use mathlib.Core.Path.{subst}
use mathlib.Core.List.{reverse, reverse-cons, reverse-reverse}
use ripestream.Base.Int.{pos}
use ripestream.Base.Ascii.{join, digits, format_int, Lacks, split-join}
use ripestream.Store.Statements.{is_space, trim_left, trim_space}
use ripestream.Atlas.Probes.{is_blank}
use ripestream.Wiring.{is_digit, atoi_digits, positive, atoi_positive, collect_ids, parse_int_csv}

abbrev AreDigits : Bytes → Type 0
AreDigits = All (λ c. is_digit c ≡ true)

digits-AreDigits : (fuel n : ℕ) (acc : Bytes) → AreDigits acc → AreDigits (digits fuel n acc)
unfolding digits
digits-AreDigits zero n acc h = h
digits-AreDigits (suc fuel) n acc h = elim (Bool-cases (ltb n 10)) [
  | inl e ↦ rw e (ground arith, h)
  | inr e ↦ rw e (digits-AreDigits fuel (n / 10) ((48 + n % 10) ∷ acc) (ground arith, h))
]

is_digit-of : (n : ℕ) → n < 10 → is_digit (48 + n) ≡ true
is_digit-of n h = ground arith

-- One digit read before the rest.
atoi_digits-digit :
    (m n : ℕ) (acc : Bytes) → n < 10 → atoi_digits m ((48 + n) ∷ acc) ≡ atoi_digits (m * 10 + n) acc
unfolding atoi_digits
atoi_digits-digit m n acc h =
    let back : 48 + n - 48 ≡ n = omega arith in rw (is_digit-of n h, back) refl

fuel_pos : (fuel n : ℕ) → n < 10 ^ suc fuel → ltb n 10 ≡ false → 0 < fuel
fuel_pos zero n h e = absurd (ground arith)
fuel_pos (suc fuel) n h e = omega arith

fuel_next : (fuel n : ℕ) → n < 10 ^ suc fuel → n / 10 < 10 ^ fuel
fuel_next fuel n h =
    let power : 10 ^ suc fuel ≡ 10 ^ fuel * 10 = ground arith in
    let below : n < 10 ^ fuel * 10 = rw power at h in omega arith

atoi_digits-digits :
    (fuel n : ℕ) (acc : Bytes)
    → n < 10 ^ fuel
    → 0 < fuel
    → atoi_digits 0 (digits fuel n acc) ≡ atoi_digits n acc
unfolding digits
atoi_digits-digits zero n acc h p = absurd (omega arith)
atoi_digits-digits (suc fuel) n acc h p =
    let whole : n / 10 * 10 + n % 10 ≡ n = omega arith in
    elim (Bool-cases (ltb n 10)) [
      | inl e ↦
          rw e
            (atoi_digits-digit 0 n acc (ground arith) ∙ ap (λ m. atoi_digits m acc) (omega arith))
      | inr e ↦ rw e (
          atoi_digits-digits fuel (n / 10) ((48 + n % 10) ∷ acc) (fuel_next fuel n h)
            (fuel_pos fuel n h e)
          ∙ atoi_digits-digit (n / 10) (n % 10) acc (omega arith)
          ∙ ap (λ m. atoi_digits m acc) whole)
    ]

trim_left-words : (s : Bytes) → All (λ c. is_space c ≡ false) s → trim_left s ≡ s
unfolding trim_left
trim_left-words [] h = refl
trim_left-words (c ∷ s) h = rw (h.0) refl

All-reverse : (P : ℕ → Type 0) (s : Bytes) → All P s → All P (reverse s)
All-reverse P [] h = tt
All-reverse P (c ∷ s) h =
    subst (All P) (sym (reverse-cons c s))
      (All-append P (reverse s) (c ∷ []) (All-reverse P s h.1) (h.0, tt))

trim_space-words : (s : Bytes) → All (λ c. is_space c ≡ false) s → trim_space s ≡ s
unfolding trim_space
trim_space-words s h =
    rw
      (trim_left-words s h, trim_left-words (reverse s) (All-reverse (λ c. is_space c ≡ false) s h))
      (reverse-reverse s)

positive-some : (n : ℕ) → 0 < n → n < 2 ^ 63 → positive (some n) ≡ n ∷ []
unfolding positive
positive-some n p b = ground arith

atoi_digits-nil : atoi_digits 0 [] ≡ some 0
unfolding atoi_digits
atoi_digits-nil = refl

-- Digits have no sign before them.
atoi_positive-AreDigits :
    (s : Bytes) (n : ℕ)
    → AreDigits s
    → atoi_digits 0 s ≡ some n
    → 0 < n
    → n < 2 ^ 63
    → atoi_positive s ≡ n ∷ []
unfolding atoi_positive
atoi_positive-AreDigits [] n h e p b =
    let zero_value : some 0 ≡ some n = sym atoi_digits-nil ∙ e in absurd (grind arith)
atoi_positive-AreDigits (c ∷ []) n h e p b = rw e (positive-some n p b)
atoi_positive-AreDigits (c ∷ d ∷ cs) n h e p b =
    let digit : is_digit c ≡ true = h.0 in
    let no_minus : (c == 45) ≡ false = ground arith in
    let no_plus : (c == 43) ≡ false = ground arith in
    rw (no_minus, no_plus, e) (positive-some n p b)

abbrev pub AreIds : List ℕ → Type 0
AreIds = All (λ n. (0 < n) × (n < 2 ^ 63))

abbrev pub written : List ℕ → List Bytes
written = map (λ n. format_int (pos n))

written-AreDigits : (n : ℕ) → AreDigits (format_int (pos n))
unfolding format_int
written-AreDigits n = digits-AreDigits 20 n [] tt

AreDigits-words : (s : Bytes) → AreDigits s → All (λ c. is_space c ≡ false) s
unfolding is_space
AreDigits-words [] h = tt
AreDigits-words (c ∷ s) h =
    let digit : is_digit c ≡ true = h.0 in (ground arith, AreDigits-words s h.1)

AreDigits-Lacks : (s : Bytes) → AreDigits s → Lacks 44 s
unfolding Lacks
AreDigits-Lacks [] h = tt
AreDigits-Lacks (c ∷ s) h =
    let digit : is_digit c ≡ true = h.0 in (ground arith, AreDigits-Lacks s h.1)

atoi_positive-written :
    (n : ℕ) → 0 < n → n < 2 ^ 63 → atoi_positive (trim_space (format_int (pos n))) ≡ n ∷ []
unfolding format_int atoi_digits
atoi_positive-written n p b =
    let digit : AreDigits (format_int (pos n)) = written-AreDigits n in
    rw (trim_space-words (format_int (pos n)) (AreDigits-words (format_int (pos n)) digit)) (
      atoi_positive-AreDigits (format_int (pos n)) n digit
        (atoi_digits-digits 20 n [] (omega arith) (omega arith)) p b)

collect_ids-written : (ids : List ℕ) → AreIds ids → collect_ids (written ids) ≡ ids
unfolding collect_ids
collect_ids-written [] h = refl
collect_ids-written (n ∷ ns) h =
    rw (atoi_positive-written n h.0.0 h.0.1) (ap (◌∷◌ n) (collect_ids-written ns h.1))

digits-nonblank :
    (fuel n : ℕ) (acc : Bytes) → is_blank acc ≡ false → is_blank (digits fuel n acc) ≡ false
unfolding digits
digits-nonblank zero n acc h = h
digits-nonblank (suc fuel) n acc h = elim (Bool-cases (ltb n 10)) [
  | inl e ↦ rw e refl
  | inr e ↦ rw e (digits-nonblank fuel (n / 10) ((48 + n % 10) ∷ acc) refl)
]

written-nonblank : (n : ℕ) → is_blank (format_int (pos n)) ≡ false
unfolding format_int digits
written-nonblank n = elim (Bool-cases (ltb n 10)) [
  | inl e ↦ rw e refl
  | inr e ↦ rw e (digits-nonblank 19 (n / 10) ((48 + n % 10) ∷ []) refl)
]

append-nonblank : (p q : Bytes) → is_blank p ≡ false → is_blank (p ++ q) ≡ false
append-nonblank [] q h = absurd (ground arith)
append-nonblank (c ∷ p) q h = refl

join-nonblank :
    (p : Bytes) (ps : List Bytes) → is_blank p ≡ false → is_blank (join (44 ∷ []) (p ∷ ps)) ≡ false
unfolding join
join-nonblank p [] h = h
join-nonblank p (q ∷ qs) h = append-nonblank p ((44 ∷ []) ++ join (44 ∷ []) (q ∷ qs)) h

is_space-comma : is_space 44 ≡ false
unfolding is_space
is_space-comma = refl

join-words : (ids : List ℕ) → All (λ c. is_space c ≡ false) (join (44 ∷ []) (written ids))
unfolding join
join-words [] = tt
join-words (n ∷ []) = AreDigits-words (format_int (pos n)) (written-AreDigits n)
join-words (n ∷ k ∷ ns) =
    All-append (λ c. is_space c ≡ false) (format_int (pos n))
      ((44 ∷ []) ++ join (44 ∷ []) (written (k ∷ ns)))
      (AreDigits-words (format_int (pos n)) (written-AreDigits n))
      (is_space-comma, join-words (k ∷ ns))

written-Lacks : (ids : List ℕ) → All (Lacks 44) (written ids)
written-Lacks [] = tt
written-Lacks (n ∷ ns) =
    (AreDigits-Lacks (format_int (pos n)) (written-AreDigits n), written-Lacks ns)

parse_int_csv-blank : parse_int_csv (join (44 ∷ []) []) ≡ []
unfolding parse_int_csv join trim_space trim_left
parse_int_csv-blank = refl

-- Positive identifiers below 2^63, each in decimal with a comma between two, are read back as they
-- were, in their order and with what repeats.
pub parse_int_csv-join :
    (ids : List ℕ) → AreIds ids → parse_int_csv (join (44 ∷ []) (written ids)) ≡ ids
unfolding parse_int_csv
parse_int_csv-join [] h = parse_int_csv-blank
parse_int_csv-join (n ∷ ns) h =
    rw
      (
        trim_space-words (join (44 ∷ []) (written (n ∷ ns))) (join-words (n ∷ ns)),
        join-nonblank (format_int (pos n)) (written ns) (written-nonblank n),
        split-join 44 (format_int (pos n)) (written ns) (written-Lacks (n ∷ ns)),
      )
      (collect_ids-written (n ∷ ns) h)
