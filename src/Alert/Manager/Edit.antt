-- ===== src/Alert/Manager/Edit.antt =====
-- A rule that goes out as a view, through JSON, and comes back.
use ripestream.Base.{
  ◌≡◌, ◌∙◌, refl, ap, true, false, [], ◌∷◌, ◌++◌, none, String, str_eq, sym, Bytes, arith,
  Bool-cases, inl, inr,
}
use ripestream.Base.Int.{ℤ, pos, eqb_ℤ, eq_of_parts}
use ripestream.Base.Float.{Float}
use ripestream.Graph.Values.{Go}
use ripestream.Alert.Rule.{Filters, Rule}
use ripestream.Alert.Manager.{
  FilterValue, FilterMap, AlertRuleView, entry, int_entry, float_entry, text_entry, filter_map,
  rule_to_view, as_number, as_text, as_integer, filters_of, view_to_rule,
}

module _ (go : Go) where
  -- What encoding/json makes of a value that it writes and then reads into an `any`: a number is
  -- a float64.
  abbrev pub decoded : FilterValue (Go.fl go) → FilterValue (Go.fl go)
  decoded (FilterValue.int n) = FilterValue.float (Go.of_int go n)
  decoded (FilterValue.float x) = FilterValue.float x
  decoded (FilterValue.text t) = FilterValue.text t

  unfoldable pub through_json : FilterMap (Go.fl go) → FilterMap (Go.fl go)
  through_json [] = []
  through_json (e ∷ es) = (e.0, decoded e.1) ∷ through_json es

  abbrev pub sent_back : AlertRuleView (Go.fl go) → AlertRuleView (Go.fl go)
  sent_back v = record v { filters = through_json v.filters }

  -- An integer that a float64 represents.
  abbrev pub IsExact : ℤ → Type 0
  IsExact n = Go.truncate go (Go.of_int go n) ≡ n

  pub record IsEditable (f : Filters (Go.fl go)) : Type 0 where
    pub min_sent : IsExact f.min_sent
    pub min_loss :
        Float.eq (Go.fl go) f.min_loss (Float.of_nat (Go.fl go) 0) ≡ true
        → f.min_loss ≡ Float.of_nat (Go.fl go) 0
    pub src_asn : IsExact f.src_asn
    pub dst_asn : IsExact f.dst_asn
    pub probe_id : IsExact f.probe_id

  skip_int :
      (name other : String) (n : ℤ) (rest : FilterMap (Go.fl go))
      → str_eq other name ≡ false
      → entry name (through_json (int_entry other n ++ rest)) ≡ entry name (through_json rest)
  unfolding entry through_json int_entry
  skip_int name other n rest h = elim (Bool-cases (eqb_ℤ n (pos 0))) [
    | inl e ↦ rw e refl
    | inr e ↦ rw (e, h) refl
  ]

  skip_float :
      (name other : String) (x : Float.F (Go.fl go)) (rest : FilterMap (Go.fl go))
      → str_eq other name ≡ false
      → entry name (through_json (float_entry other x ++ rest)) ≡ entry name (through_json rest)
  unfolding entry through_json float_entry
  skip_float name other x rest h =
      elim (Bool-cases (Float.eq (Go.fl go) x (Float.of_nat (Go.fl go) 0))) [
        | inl e ↦ rw e refl
        | inr e ↦ rw (e, h) refl
      ]

  skip_text :
      (name other : String) (t : Bytes)
      → str_eq other name ≡ false
      → entry name (through_json (text_entry other t)) ≡ none
  unfolding entry through_json text_entry
  skip_text name other [] h = refl
  skip_text name other (c ∷ cs) h = rw h refl

  found_int :
      (name : String) (n : ℤ) (rest : FilterMap (Go.fl go))
      → str_eq name name ≡ true
      → IsExact n
      → entry name (through_json rest) ≡ none
      → as_integer go (entry name (through_json (int_entry name n ++ rest))) ≡ n
  unfolding entry through_json int_entry as_integer
  found_int name n rest h exact away = elim (Bool-cases (eqb_ℤ n (pos 0))) [
    | inl e ↦ rw (e, away) (eq_of_parts (pos 0) n (ground arith))
    | inr e ↦ rw (e, h) exact
  ]

  found_float :
      (name : String) (x : Float.F (Go.fl go)) (rest : FilterMap (Go.fl go))
      → str_eq name name ≡ true
      → (Float.eq (Go.fl go) x (Float.of_nat (Go.fl go) 0) ≡ true → x ≡ Float.of_nat (Go.fl go) 0)
      → entry name (through_json rest) ≡ none
      → as_number (entry name (through_json (float_entry name x ++ rest))) ≡ x
  unfolding entry through_json float_entry as_number
  found_float name x rest h zero_alone away =
      elim (Bool-cases (Float.eq (Go.fl go) x (Float.of_nat (Go.fl go) 0))) [
        | inl e ↦ rw (e, away) (sym (zero_alone e))
        | inr e ↦ rw (e, h) refl
      ]

  found_text :
      (name : String) (t : Bytes)
      → str_eq name name ≡ true
      → as_text (entry name (through_json (text_entry name t))) ≡ t
  unfolding entry through_json text_entry as_text
  found_text name [] h = refl
  found_text name (c ∷ cs) h = rw h refl

  module _ (f : Filters (Go.fl go)) where
    abbrev from_target : FilterMap (Go.fl go)
    from_target = text_entry "target_ip" f.target_ip

    abbrev from_probe : FilterMap (Go.fl go)
    from_probe = int_entry "probe_id" f.probe_id ++ from_target

    abbrev from_dst : FilterMap (Go.fl go)
    from_dst = int_entry "dst_asn" f.dst_asn ++ from_probe

    abbrev from_src : FilterMap (Go.fl go)
    from_src = int_entry "src_asn" f.src_asn ++ from_dst

    abbrev from_loss : FilterMap (Go.fl go)
    from_loss = float_entry "min_loss" f.min_loss ++ from_src

    -- A name of none of the last filters is not found behind the first two.
    absent_behind :
        (name : String)
        → str_eq "src_asn" name ≡ false
        → str_eq "dst_asn" name ≡ false
        → str_eq "probe_id" name ≡ false
        → str_eq "target_ip" name ≡ false
        → entry name (through_json from_src) ≡ none
    absent_behind name a b c d =
        skip_int name "src_asn" f.src_asn from_dst a
        ∙ skip_int name "dst_asn" f.dst_asn from_probe b
        ∙ skip_int name "probe_id" f.probe_id from_target c
        ∙ skip_text name "target_ip" f.target_ip d

    past_loss :
        (name : String)
        → str_eq "min_sent" name ≡ false
        → str_eq "min_loss" name ≡ false
        → entry name (through_json (filter_map f)) ≡ entry name (through_json from_src)
    unfolding filter_map
    past_loss name a b =
        skip_int name "min_sent" f.min_sent from_loss a
        ∙ skip_float name "min_loss" f.min_loss from_src b

    past_dst :
        (name : String)
        → str_eq "min_sent" name ≡ false
        → str_eq "min_loss" name ≡ false
        → str_eq "src_asn" name ≡ false
        → str_eq "dst_asn" name ≡ false
        → entry name (through_json (filter_map f)) ≡ entry name (through_json from_probe)
    past_dst name a b c d =
        past_loss name a b
        ∙ skip_int name "src_asn" f.src_asn from_dst c
        ∙ skip_int name "dst_asn" f.dst_asn from_probe d

    module _ (h : IsEditable f) where
      back_min_sent : as_integer go (entry "min_sent" (through_json (filter_map f))) ≡ f.min_sent
      unfolding filter_map
      back_min_sent = found_int "min_sent" f.min_sent from_loss refl h.min_sent (
          skip_float "min_sent" "min_loss" f.min_loss from_src refl
          ∙ absent_behind "min_sent" refl refl refl refl)

      back_min_loss : as_number (entry "min_loss" (through_json (filter_map f))) ≡ f.min_loss
      unfolding filter_map
      back_min_loss =
          ap as_number (skip_int "min_loss" "min_sent" f.min_sent from_loss refl)
          ∙ found_float "min_loss" f.min_loss from_src refl h.min_loss
              (absent_behind "min_loss" refl refl refl refl)

      back_src_asn : as_integer go (entry "src_asn" (through_json (filter_map f))) ≡ f.src_asn
      back_src_asn =
          ap (as_integer go) (past_loss "src_asn" refl refl)
          ∙ found_int "src_asn" f.src_asn from_dst refl h.src_asn (
              skip_int "src_asn" "dst_asn" f.dst_asn from_probe refl
              ∙ skip_int "src_asn" "probe_id" f.probe_id from_target refl
              ∙ skip_text "src_asn" "target_ip" f.target_ip refl)

      back_dst_asn : as_integer go (entry "dst_asn" (through_json (filter_map f))) ≡ f.dst_asn
      back_dst_asn =
          ap (as_integer go)
            (past_loss "dst_asn" refl refl ∙ skip_int "dst_asn" "src_asn" f.src_asn from_dst refl)
          ∙ found_int "dst_asn" f.dst_asn from_probe refl h.dst_asn (
              skip_int "dst_asn" "probe_id" f.probe_id from_target refl
              ∙ skip_text "dst_asn" "target_ip" f.target_ip refl)

      back_probe_id : as_integer go (entry "probe_id" (through_json (filter_map f))) ≡ f.probe_id
      back_probe_id =
          ap (as_integer go) (past_dst "probe_id" refl refl refl refl)
          ∙ found_int "probe_id" f.probe_id from_target refl h.probe_id
              (skip_text "probe_id" "target_ip" f.target_ip refl)

      back_target_ip : as_text (entry "target_ip" (through_json (filter_map f))) ≡ f.target_ip
      back_target_ip =
          ap as_text (
            past_dst "target_ip" refl refl refl refl
            ∙ skip_int "target_ip" "probe_id" f.probe_id from_target refl)
          ∙ found_text "target_ip" f.target_ip refl

      filters_of-through_json : filters_of go (through_json (filter_map f)) ≡ f
      unfolding filters_of
      filters_of-through_json =
          rw
            (
              back_min_sent, back_min_loss, back_src_asn, back_dst_asn, back_probe_id,
              back_target_ip,
            )
            refl

-- A rule that the API shows and takes back under its identifier is the same rule but for its times,
-- which the store sets: the map of filters, through JSON, where a number is a float64, names each
-- filter that is set and gives it back. The integers are such that a float64 holds them, and a
-- minimal loss that equals zero is the zero of its type.
pub view_to_rule-rule_to_view :
    (go : Go) (r : Rule (Go.fl go))
    → IsEditable go r.filters
    → view_to_rule go r.id (sent_back go (rule_to_view r))
      ≡ record r { created_at = []; updated_at = [] }
unfolding view_to_rule rule_to_view
view_to_rule-rule_to_view go r h = rw (filters_of-through_json go r.filters h) refl
