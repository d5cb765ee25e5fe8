-- ===== src/Graph/Parse/Replies.antt =====
-- `hopBestReply` against a plain description.
use ripestream.Base.{
  ℕ, suc, ◌+◌, true, false, not, ◌&&◌, List, [], ◌∷◌, Option, none, some, Bytes, ◌==◌,
  if◌then◌else◌, ◌≡◌, refl, sym, ◌∙◌, length, ap, arith, inl, inr, Bool-cases,
}
use ripestream.Base.Float.{Float}
use ripestream.Base.Text.{bytes_eq, bytes_eq_refl}
use ripestream.Graph.Parse.{Reply, Best, is_blank, times_out, best_loop, hop_best_reply}

abbrev pub add_all : (fl : Float) → Float.F fl → List (Float.F fl) → Float.F fl
add_all fl sum [] = sum
add_all fl sum (t ∷ ts) = add_all fl (Float.add fl sum t) ts

one_more : (n : ℕ) → 1 + n ≡ suc n
one_more n = omega arith

suc_not_zero : (n : ℕ) → (suc n == 0) ≡ false
suc_not_zero n = ground arith

module _ {fl : Float} where
  -- The address of the first reply that is no timeout.
  abbrev pub first_address : List (Reply fl) → Option Bytes
  first_address [] = none
  first_address (r ∷ rs) = if times_out r then first_address rs else some r.from

  -- The times of the replies from an address, in order.
  abbrev pub times_from : Bytes → List (Reply fl) → List (Float.F fl)
  times_from addr [] = []
  times_from addr (r ∷ rs) =
      if not (times_out r) && bytes_eq r.from addr
      then r.rtt ∷ times_from addr rs
      else times_from addr rs

  -- The mean of the times of the address.
  abbrev pub mean_from : List (Reply fl) → Option Bytes → Option (Bytes × Float.F fl)
  mean_from replies none = none
  mean_from replies (some addr) = some (
    addr,
    Float.div fl (add_all fl (Float.of_nat fl 0) (times_from addr replies))
        (Float.of_nat fl (length (times_from addr replies))),
  )

  abbrev best : Bytes → Float.F fl → ℕ → Best fl
  best addr sum n = record { addr = addr; sum = sum; n = n }

  -- The loop once the address is set.
  best_loop-set :
      (addr : Bytes) (sum : Float.F fl) (n : ℕ) (rs : List (Reply fl))
      → is_blank addr ≡ false
      → best_loop (best addr sum n) rs
        ≡ best addr (add_all fl sum (times_from addr rs)) (n + length (times_from addr rs))
  unfolding best_loop
  best_loop-set addr sum n [] h = ap (best addr sum) (omega arith)
  best_loop-set addr sum n (r ∷ rs) h = elim (Bool-cases (times_out r)) [
    | inl t ↦ rw t (best_loop-set addr sum n rs h)
    | inr t ↦ elim (Bool-cases (bytes_eq r.from addr)) [
      | inl e ↦
          rw (t, h, e)
            (best_loop-set addr (Float.add fl sum r.rtt) (n + 1) rs h
              ∙ ap (best addr _) (omega arith))
      | inr e ↦ rw (t, h, e) (best_loop-set addr sum n rs h)
    ]
  ]

  mean_from-skip :
      (r : Reply fl) (rs : List (Reply fl)) (o : Option Bytes)
      → times_out r ≡ true
      → mean_from (r ∷ rs) o ≡ mean_from rs o
  mean_from-skip r rs none t = refl
  mean_from-skip r rs (some addr) t = rw t refl

  hop_best_reply-skip :
      (r : Reply fl) (rs : List (Reply fl))
      → times_out r ≡ true
      → hop_best_reply (r ∷ rs) ≡ hop_best_reply rs
  unfolding hop_best_reply best_loop
  hop_best_reply-skip r rs t = rw t refl

  first_blank : (r : Reply fl) → times_out r ≡ false → is_blank r.from ≡ false
  first_blank r t = ground arith

  hop_best_reply-first :
      (r : Reply fl) (rs : List (Reply fl))
      → times_out r ≡ false
      → is_blank r.from ≡ false
      → let ts = r.rtt ∷ times_from r.from rs in
        hop_best_reply (r ∷ rs)
        ≡ some
            (r.from, Float.div fl (add_all fl (Float.of_nat fl 0) ts) (Float.of_nat fl (length ts)))
  unfolding hop_best_reply best_loop
  hop_best_reply-first r rs t h =
      rw
        (
          t,
          bytes_eq_refl r.from,
          best_loop-set r.from (Float.add fl (Float.of_nat fl 0) r.rtt) 1 rs h,
          h,
          one_more (length (times_from r.from rs)),
          suc_not_zero (length (times_from r.from rs)),
        )
        refl

  -- `hopBestReply` gives the address of the first reply that is no timeout, with the mean of the
  -- times of all replies from that address, and nothing when every reply is a timeout.
  pub hop_best_reply-mean_from :
      (replies : List (Reply fl))
      → hop_best_reply replies ≡ mean_from replies (first_address replies)
  unfolding hop_best_reply best_loop
  hop_best_reply-mean_from [] = refl
  hop_best_reply-mean_from (r ∷ rs) = elim (Bool-cases (times_out r)) [
    | inl t ↦
        hop_best_reply-skip r rs t
        ∙ hop_best_reply-mean_from rs
        ∙ rw t (sym (mean_from-skip r rs (first_address rs) t))
    | inr t ↦ hop_best_reply-first r rs t (first_blank r t) ∙ rw (t, t, bytes_eq_refl r.from) refl
  ]
