-- ===== src/Atlas/Stream/Identity.antt =====
-- Every record that the stream hands on says which measurement it is of, and when.
use ripestream.Base.{
  Bool, true, false, ◌||◌, List, [], ◌∷◌, ◌++◌, Option, none, some, String, str_eq, Bytes, ◌==◌,
  if◌then◌else◌, ◌≡◌, All, All-append, arith, inl, inr, Bool-cases, Option-cases,
}
use ripestream.Base.Int.{pos, eqb_ℤ}
use ripestream.Base.Float.{Float}
use ripestream.Store.Statements.{trim_space}
use ripestream.Atlas.Stream.{
  Payload, Record, Handled, dropped, produced, cancelled, is_empty, ReadEnd, more, end_of_file,
  context_done, read_failed, Read, Streamed, to_record, after_read, send_record, handle_payload,
  handle_event, handle_pair, handle_line, read_loop,
}

module _ {fl : Float} where
  abbrev pub IsIdentified : Record fl → Type 0
  IsIdentified rec = (eqb_ℤ rec.timestamp (pos 0) ≡ false) × ((rec.msm_id == 0) ≡ false)

  abbrev IsSound : Handled fl → Type 0
  IsSound dropped = Unit {0}
  IsSound (produced rec) = IsIdentified rec
  IsSound cancelled = Unit {0}

  send_record-IsSound : (sends : Bool) (rec : Record fl) → IsSound (send_record sends rec)
  unfolding send_record
  send_record-IsSound sends rec =
      elim (Bool-cases (eqb_ℤ rec.timestamp (pos 0) || rec.msm_id == 0)) [
        | inl e ↦ rw e tt
        | inr e ↦ rw e (sent sends (ground arith))
      ]
    where
      sent : (b : Bool) → IsIdentified rec → IsSound (if b then produced rec else cancelled)
      sent true i = i
      sent false i = tt

  after_read-All :
      (x : ReadEnd) (out : List (Record fl)) (later : Streamed fl)
      → All IsIdentified out
      → All IsIdentified later.records
      → All IsIdentified (after_read x out later).records
  after_read-All more out later h k = k
  after_read-All end_of_file out later h k = h
  after_read-All context_done out later h k = h
  after_read-All read_failed out later h k = h

  module _ (decode_pair : Bytes → Option (Bytes × Bytes)) (decode_event : Bytes → Option String)
      (decode_payload : Bytes → Option (Payload fl)) where
    handle_payload-IsSound :
        (sends : Bool) (raw : Bytes)
        → IsSound (handle_payload decode_pair decode_event decode_payload sends raw)
    unfolding handle_payload
    handle_payload-IsSound sends raw = elim (Option-cases (decode_payload raw)) [
      | inl e ↦ rw e tt
      | inr (pl, e) ↦ rw e (send_record-IsSound sends (to_record raw pl))
    ]

    handle_event-IsSound :
        (sends : Bool) (raw : Bytes) (event : Option String)
        → IsSound (handle_event decode_pair decode_event decode_payload sends raw event)
    unfolding handle_event
    handle_event-IsSound sends raw none = tt
    handle_event-IsSound sends raw (some event) = elim (Bool-cases (str_eq event "atlas_result")) [
      | inl e ↦ rw e (handle_payload-IsSound sends raw)
      | inr e ↦ rw e tt
    ]

    handle_pair-IsSound :
        (sends : Bool) (pair : Option (Bytes × Bytes))
        → IsSound (handle_pair decode_pair decode_event decode_payload sends pair)
    unfolding handle_pair
    handle_pair-IsSound sends none = tt
    handle_pair-IsSound sends (some (tag, raw)) = handle_event-IsSound sends raw (decode_event tag)

    handle_line-IsSound :
        (sends : Bool) (line : Bytes)
        → IsSound (handle_line decode_pair decode_event decode_payload sends line)
    unfolding handle_line
    handle_line-IsSound sends line = elim (Bool-cases (is_empty (trim_space line))) [
      | inl e ↦ rw e tt
      | inr e ↦ rw e (handle_pair-IsSound sends (decode_pair (trim_space line)))
    ]

    -- Whatever lines arrive and whatever the decoders make of them, every record that the stream has
    -- sent names its measurement and its time, if those sent before did.
    pub read_loop-IsIdentified :
        (out : List (Record fl)) (reads : List Read)
        → All IsIdentified out
        → All IsIdentified (read_loop decode_pair decode_event decode_payload out reads).records
    unfolding read_loop
    read_loop-IsIdentified out [] h = h
    read_loop-IsIdentified out (r ∷ rs) h =
        go (handle_line decode_pair decode_event decode_payload r.sends r.line)
          (handle_line-IsSound r.sends r.line) (read_loop-IsIdentified out rs h)
          (λ rec i.
            read_loop-IsIdentified (out ++ rec ∷ []) rs (All-append IsIdentified out _ h (i, tt)))
      where
        go :
            (x : Handled fl)
            → IsSound x
            → All IsIdentified (read_loop decode_pair decode_event decode_payload out rs).records
            → ((rec : Record fl)
                → IsIdentified rec
                → All IsIdentified
                    (read_loop decode_pair decode_event decode_payload
                      (out ++ rec ∷ [])
                      rs).records)
            → let s : Streamed fl = elim x [
              | cancelled ↦ record { records = out; result = context_done }
              | dropped ↦
                  after_read r.end out (read_loop decode_pair decode_event decode_payload out rs)
              | produced rec ↦
                  after_read r.end
                    (out ++ rec ∷ [])
                    (read_loop decode_pair decode_event decode_payload (out ++ rec ∷ []) rs)
            ] in
              All IsIdentified s.records
        go cancelled i k f = h
        go dropped i k f = after_read-All r.end out _ h k
        go (produced rec) i k f =
            after_read-All r.end (out ++ rec ∷ []) _ (All-append IsIdentified out _ h (i, tt))
              (f rec i)
