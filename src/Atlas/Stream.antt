-- ===== src/Atlas/Stream.antt =====
-- `handleLine` and the reading loop of `streamOnce`. The connection is a list of reads, and the
-- decoders of encoding/json are arguments.
pub mod Identity
use ripestream.Base.{
  ℕ, Bool, true, false, ◌||◌, List, [], ◌∷◌, ◌++◌, Option, none, some, String, str_eq, Bytes, ◌==◌,
  if◌then◌else◌,
}
use ripestream.Base.Int.{ℤ, pos, eqb_ℤ}
use ripestream.Base.Float.{Float}
use ripestream.Store.Statements.{trim_space}

-- `payload`; a pointer that may be nil is an option.
pub record Payload (fl : Float) : Type 0 where
  pub fw : Option ℕ
  pub af : Option ℕ
  pub proto : String
  pub dst_name : Bytes
  pub dst_addr : Bytes
  pub src_addr : Bytes
  pub from_ip : Bytes
  pub type : String
  pub msm_name : Bytes
  pub msm_id : ℕ
  pub prb_id : ℕ
  pub ts : ℤ
  pub sent : ℕ
  pub rcvd : ℕ
  pub avg : Float.F fl
  pub min_rtt : Float.F fl
  pub max_rtt : Float.F fl

-- `Record`.
pub record Record (fl : Float) : Type 0 where
  pub timestamp : ℤ
  pub msm_id : ℕ
  pub prb_id : ℕ
  pub type : String
  pub msm_name : Bytes
  pub from_ip : Bytes
  pub af : ℕ
  pub proto : String
  pub dst_name : Bytes
  pub dst_addr : Bytes
  pub src_addr : Bytes
  pub fw : ℕ
  pub sent : ℕ
  pub rcvd : ℕ
  pub avg_rtt : Float.F fl
  pub min_rtt : Float.F fl
  pub max_rtt : Float.F fl
  pub result_json : Bytes

-- `deref8` and `deref32`.
abbrev deref : Option ℕ → ℕ
deref none = 0
deref (some n) = n

-- A line is dropped, gives a record that is sent, or meets the end of the context at the send.
pub data Handled (fl : Float) : Type 0 where
  dropped : Handled fl
  produced : Record fl → Handled fl
  cancelled : Handled fl

abbrev is_empty : Bytes → Bool
is_empty [] = true
is_empty (_ ∷ _) = false

-- How a read ends: with more to come, at the end of the body, with the context, or otherwise.
pub data ReadEnd : Type 0 where
  more : ReadEnd
  end_of_file : ReadEnd
  context_done : ReadEnd
  read_failed : ReadEnd

-- One `ReadString`, and whether a send of its record is taken before the context ends.
pub record Read : Type 0 where
  pub line : Bytes
  pub end : ReadEnd
  pub sends : Bool

-- The records sent, oldest first, and the result: `more` while the loop still reads.
pub record Streamed (fl : Float) : Type 0 where
  pub records : List (Record fl)
  pub result : ReadEnd

module _ {fl : Float} where
  abbrev pub to_record : Bytes → Payload fl → Record fl
  to_record raw pl = record {
    timestamp = pl.ts;
    msm_id = pl.msm_id;
    prb_id = pl.prb_id;
    type = pl.type;
    msm_name = pl.msm_name;
    from_ip = pl.from_ip;
    af = deref pl.af;
    proto = pl.proto;
    dst_name = pl.dst_name;
    dst_addr = pl.dst_addr;
    src_addr = pl.src_addr;
    fw = deref pl.fw;
    sent = pl.sent;
    rcvd = pl.rcvd;
    avg_rtt = pl.avg;
    min_rtt = pl.min_rtt;
    max_rtt = pl.max_rtt;
    result_json = raw;
  }

  -- The end of `handleLine`: a record without its identity is dropped.
  unfoldable pub send_record : Bool → Record fl → Handled fl
  send_record sends rec =
      if eqb_ℤ rec.timestamp (pos 0) || rec.msm_id == 0
      then dropped
      else if sends
      then produced rec
      else cancelled

  -- Behind a line: a read that ended returns.
  abbrev pub after_read : ReadEnd → List (Record fl) → Streamed fl → Streamed fl
  after_read more out later = later
  after_read end_of_file out later = record { records = out; result = end_of_file }
  after_read context_done out later = record { records = out; result = context_done }
  after_read read_failed out later = record { records = out; result = read_failed }

  module _ (decode_pair : Bytes → Option (Bytes × Bytes)) (decode_event : Bytes → Option String)
      (decode_payload : Bytes → Option (Payload fl)) where
    unfoldable pub handle_payload : Bool → Bytes → Handled fl
    handle_payload sends raw = decoded (decode_payload raw)
      where
        decoded : Option (Payload fl) → Handled fl
        decoded none = dropped
        decoded (some pl) = send_record sends (to_record raw pl)

    -- The switch on the event: all but a result are only logged.
    unfoldable pub handle_event : Bool → Bytes → Option String → Handled fl
    handle_event sends raw none = dropped
    handle_event sends raw (some event) =
        if str_eq event "atlas_result" then handle_payload sends raw else dropped

    unfoldable pub handle_pair : Bool → Option (Bytes × Bytes) → Handled fl
    handle_pair sends none = dropped
    handle_pair sends (some (tag, raw)) = handle_event sends raw (decode_event tag)

    -- `handleLine`; trimming knows the ASCII spaces.
    unfoldable pub handle_line : Bool → Bytes → Handled fl
    handle_line sends line =
        let text = trim_space line in
        if is_empty text then dropped else handle_pair sends (decode_pair text)

    -- The loop of `streamOnce`.
    unfoldable pub read_loop : List (Record fl) → List Read → Streamed fl
    read_loop out [] = record { records = out; result = more }
    read_loop out (r ∷ rs) = elim (handle_line r.sends r.line) [
      | cancelled ↦ record { records = out; result = context_done }
      | dropped ↦ after_read r.end out (read_loop out rs)
      | produced rec ↦ after_read r.end (out ++ rec ∷ []) (read_loop (out ++ rec ∷ []) rs)
    ]
