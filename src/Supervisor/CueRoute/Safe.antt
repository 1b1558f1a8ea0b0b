-- ===== src/Supervisor/CueRoute/Safe.antt =====
-- What a cue has to pass before the supervisor sends a command (src/supervisor/supervisor_api.cpp,
-- the route `cue` of `handleReq`).
use multi_coder.Prelude.{
  ℕ, true, false, [], ◌≡◌, ◌≢◌, ◌⊎◌, inl, inr, refl, arith, Option, none, Bytes, codes, beq_iff,
  is_empty, Bool-cases, Option-cases,
}
use multi_coder.Strings.{trim, lower_copy}
use multi_coder.Json.{Object, get_string, get_bool, get_sub_object}
use multi_coder.Cue.Gate.{accepted}
use multi_coder.Supervisor.Http.{parse_header, parse_body}
use multi_coder.Supervisor.Text.{or_text}
use multi_coder.Supervisor.Host.{Host, World, encoder_file, system_path, read_json_file}
use multi_coder.Supervisor.CueRoute.{
  CueFields, listen_error, source_allowed, limits_of, read_cue, reject_reason, token_refused,
  value_error,
}
use multi_coder.Supervisor.CueRoute.Handle.{gate, emits_command, refuse, listening, cue_route}
use multi_coder.Supervisor.CueRoute.Sends.{
  IsSilent, Sends, action_of, write_field-IsSilent, through_gate_sends,
}

-- The cue, event id and token are there where the settings require them.
pub record IsComplete (scte : Object) (auth_token : Bytes) (f : CueFields) : Type 0 where
  pub has_cue : f.cue ≢ []
  pub has_event_id : get_bool scte (codes "requireEventId") false ≡ true → trim f.event_id ≢ []
  pub has_token :
      get_bool scte (codes "requireToken") false ≡ true
      → (or_text auth_token f.payload_token ≡ get_string scte (codes "token") [])
        × (get_string scte (codes "token") [] ≢ [])

token_checked :
    (scte : Object) (auth_token : Bytes) (f : CueFields)
    → token_refused scte auth_token f ≡ false
    → (or_text auth_token f.payload_token ≡ get_string scte (codes "token") [])
      × (get_string scte (codes "token") [] ≢ [])
unfolding token_refused
token_checked scte auth_token f h =
    ground
      (arith, beq_iff (or_text auth_token f.payload_token) (get_string scte (codes "token") []))

value_checked :
    (scte : Object) (auth_token : Bytes) (f : CueFields)
    → is_empty (value_error scte auth_token f) ≡ true
    → IsComplete scte auth_token f
unfolding value_error
value_checked scte auth_token f h = record {
  has_cue = ground arith;
  has_event_id = λ n. ground arith;
  has_token = λ n. token_checked scte auth_token f (ground arith);
}

reason_checked :
    (scte : Object) (content_type auth_token : Bytes) (f : CueFields)
    → is_empty (reject_reason scte content_type auth_token f) ≡ true
    → IsComplete scte auth_token f
unfolding reject_reason
reason_checked scte content_type auth_token f h =
    elim (Bool-cases (is_empty (value_error scte auth_token f))) [
      | inl e ↦ value_checked scte auth_token f e
      | inr e ↦ value_checked scte auth_token f (ground arith)
    ]

module _ (w : World) (inet_pton : Bytes → Option ℕ) (enc : ℕ) where
  abbrev token_of : Bytes → Bytes
  token_of raw = parse_header raw (codes "X-Cue-Token")

  -- All that stands between a request and the command that its cue sends.
  pub record IsAdmitted (sys scte : Object) (raw client_ip : Bytes) (h : Host) : Type 0 where
    pub listed : source_allowed inet_pton scte client_ip ≡ true
    pub complete : IsComplete scte (token_of raw) (read_cue scte (parse_body raw))
    pub in_rate :
        let cue = (read_cue scte (parse_body raw)).cue in
        (gate (limits_of sys scte) w.now_ms cue (h.cue_states enc)).0 ≡ accepted
    pub emits : emits_command scte ≡ true
    pub has_action : action_of w enc scte (read_cue scte (parse_body raw)).cue ≢ []

  -- The requests whose cue sends a command, and the command.
  pub record SendsAdmitted (sys scte : Object) (raw client_ip : Bytes) (h h' : Host) : Type 0 where
    pub listens : listen_error sys scte ≡ none
    pub admitted : IsAdmitted sys scte raw client_ip h
    pub sends : Sends enc (action_of w enc scte (read_cue scte (parse_body raw)).cue) h h'

  listening_sends :
      (sys scte : Object) (raw client_ip : Bytes) (h : Host)
      → IsSilent h (listening w inet_pton enc sys scte raw client_ip h).1
        ⊎ (IsAdmitted sys scte raw client_ip h
            × Sends enc
                (action_of w enc scte (read_cue scte (parse_body raw)).cue)
                h
                (listening w inet_pton enc sys scte raw client_ip h).1)
  unfolding listening refuse
  listening_sends sys scte raw client_ip h =
      let f = read_cue scte (parse_body raw) in
      let content_type = lower_copy (parse_header raw (codes "Content-Type")) in
      let reason = reject_reason scte content_type (token_of raw) f in
      elim (Bool-cases (source_allowed inet_pton scte client_ip)) [
        | inr e ↦ inl (rw e (write_field-IsSilent w enc _ _ _))
        | inl a ↦ elim (Bool-cases (is_empty reason)) [
          | inr e ↦ inl (rw (a, e) (write_field-IsSilent w enc _ _ _))
          | inl c ↦ elim (through_gate_sends w enc scte (limits_of sys scte) client_ip f.cue h) [
            | inl silent ↦ inl (rw (a, c) silent)
            | inr (rate, (emit, action, sends)) ↦ inr (
              record {
                listed = a;
                complete = reason_checked scte content_type (token_of raw) f c;
                in_rate = rate;
                emits = emit;
                has_action = action;
              },
              rw (a, c) sends,
            )
          ]
        ]
      ]

  -- A request with a cue leaves the worker alone, or one command is sent, which is the action that
  -- the encoder's rows have for the cue: the listener is on for HTTP, the source is listed, the
  -- cue and the event id and token where they are required are there, and the rate limit and the
  -- replay check let the cue pass.
  pub cue_route_safe :
      (raw client_ip : Bytes) (h : Host)
      → IsSilent h (cue_route w inet_pton enc raw client_ip h).1
        ⊎ SendsAdmitted
            (read_json_file h system_path)
            (get_sub_object
              (read_json_file h (encoder_file enc (codes "metadata.json")))
              (codes "scte"))
            raw
            client_ip
            h
            (cue_route w inet_pton enc raw client_ip h).1
  unfolding cue_route
  cue_route_safe raw client_ip h =
      let sys = read_json_file h system_path in
      let cfg = read_json_file h (encoder_file enc (codes "metadata.json")) in
      let scte = get_sub_object cfg (codes "scte") in
      elim (Option-cases (listen_error sys scte)) [
        | inr (err, e) ↦ inl (rw (e, cue_route) refl)
        | inl on ↦ elim (listening_sends sys scte raw client_ip h) [
          | inl silent ↦ inl (rw (on, cue_route) silent)
          | inr (admitted, sends) ↦
              inr (record { listens = on; admitted = admitted; sends = rw (on, cue_route) sends })
        ]
      ]
