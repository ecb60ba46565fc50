-- ===== src/Gateway/Resume.antt =====
-- The session of src/shard.cpp: what is remembered of it, and that it is resumed.
use Prim.Native.String.{String}
use text.Mathlib.Text.{◌==◌ as str_eq}
use ekizu.Prelude.{
  ℕ, ◌≡◌, refl, ap, ◌∙◌, Bool, true, false, ◌&&◌, Option, none, some, List, [], ◌∷◌, ◌++◌, ◌%◌, ◌^◌,
  if_true, if_false, arith,
}
use ekizu.Gateway.Json.{
  Json, unsigned, Fields, end, field, object, string, number, at, find, to_unsigned, as_number,
  as_unsigned, as_text, as_object,
}
use ekizu.Gateway.Shard.{
  Session, resume, reader, Action, send, connect, resumed, start_timer, Shard, ◌>>◌, close_impl,
  close_resume, start_heartbeat, send_resume_async, resume_with,
}
use ekizu.Gateway.Connection.{
  url_of, on_backoff, on_connected, on_done, ensure_connected_then_read, after_reconnect, read_one,
}
use ekizu.Gateway.Messages.{
  on_message, handle_gateway_payload, opcode_with, on_opcode, on_dispatch, dispatch_with,
  ready_with, finish_dispatch, note_sequence, as_sequence, on_reconnect, on_hello, hello_with,
  hello_value, introduce,
}
use ekizu.Gateway.Machine.{Input, next_event, received, backed_off, connected, done, handle, run}

-- A text message.
abbrev pub message : Json → Input
message json = received (record {
  is_binary = false;
  plain = some json;
  inflated = none;
  inflate_error = none;
  converts = true;
})

abbrev pub dispatch_json : String → ℕ → Fields → Json
dispatch_json name n fs = object (
    field "op" (number (unsigned 0))
      (field "t" (string name) (field "s" (number (unsigned n)) (field "d" (object fs) end))))

-- The data of `READY`, with fields that do not matter behind.
abbrev pub ready_data : String → String → Fields → Fields
ready_data id url rest =
    field "session_id" (string id) (field "resume_gateway_url" (string url) rest)

abbrev pub reconnect_json : Json
reconnect_json = object (field "op" (number (unsigned 7)) end)

abbrev pub hello_json : ℕ → Json
hello_json ms = object (
    field "op" (number (unsigned 10))
      (field "d" (object (field "heartbeat_interval" (number (unsigned ms)) end)) end))

on_message_text :
    (json : Json) (s : Shard) → handle (message json) s ≡ handle_gateway_payload true (some json) s
unfolding handle on_message
on_message_text json s = if_false _ _ (off s.has_inflater)
  where
    off : (b : Bool) → (b && false) ≡ false
    off true = refl
    off false = refl

handle-ready :
    (id url : String) (n : ℕ) (rest : Fields) (s : Shard)
    → (handle_gateway_payload true (some (dispatch_json "READY" n (ready_data id url rest))) s).0
      ≡ record s {
        session = some (record { id = id; sequence = n % 2 ^ 64 });
        resume_gateway_url = some url;
      }
unfolding handle_gateway_payload opcode_with on_opcode on_dispatch dispatch_with ready_with
    finish_dispatch note_sequence as_sequence as_text as_number as_object at find to_unsigned
handle-ready id url n rest s = refl

handle-dispatch :
    (name : String) (n : ℕ) (fs : Fields) (s : Shard)
    → str_eq name "READY" ≡ false
    → (handle_gateway_payload true (some (dispatch_json name n fs)) s).0
      ≡ record s { session = note_sequence s.session (some (n % 2 ^ 64)) }
unfolding handle_gateway_payload opcode_with on_opcode on_dispatch dispatch_with finish_dispatch
    as_sequence as_text as_number as_object at find to_unsigned
handle-dispatch name n fs s h = ap (λ r. r.0) (if_false {A = Shard × List Action} _ _ h)

handle-reconnect :
    (s : Shard)
    → handle_gateway_payload true (some reconnect_json) s ≡ close_impl close_resume reader s
unfolding handle_gateway_payload opcode_with on_opcode on_reconnect as_number at find to_unsigned
handle-reconnect s = refl

handle-hello :
    (ms : ℕ) (s : Shard)
    → handle_gateway_payload true (some (hello_json ms)) s
      ≡ (start_heartbeat (ms % 2 ^ 32) >> introduce s.session)
          (record s { last_heartbeat_acked = true })
unfolding handle_gateway_payload opcode_with on_opcode on_hello hello_with hello_value as_number
    as_unsigned at find to_unsigned
handle-hello ms s = refl

-- A dispatch other than `READY`.
pub record Later : Type 0 where
  pub name : String
  pub sequence : ℕ
  pub fields : Fields
  pub not_ready : str_eq name "READY" ≡ false

abbrev pub messages : List Later → List Input
messages [] = []
messages (d ∷ ds) = message (dispatch_json d.name d.sequence d.fields) ∷ messages ds

-- The number of the last of the dispatches, as it is kept.
abbrev pub last_sequence : ℕ → List Later → ℕ
last_sequence n [] = n
last_sequence n (d ∷ ds) = last_sequence (d.sequence % 2 ^ 64) ds

run-dispatches :
    (id : String) (n : ℕ) (ds : List Later) (s : Shard)
    → s.session ≡ some (record { id = id; sequence = n })
    → (run (messages ds) s).0
      ≡ record s { session = some (record { id = id; sequence = last_sequence n ds }) }
unfolding run note_sequence
run-dispatches id n [] s e = ap (λ (o : Option Session). record s { session = o }) e
run-dispatches id n (d ∷ ds) s e =
    let step =
      ap (λ r. r.0) (on_message_text (dispatch_json d.name d.sequence d.fields) s)
      ∙ (handle-dispatch d.name d.sequence d.fields s d.not_ready
          ∙ ap
              (λ (o : Option Session). record s {
                session = note_sequence o (some (d.sequence % 2 ^ 64));
              })
              e) in
    ap (λ t. (run (messages ds) t).0) step
    ∙ run-dispatches id (d.sequence % 2 ^ 64) ds
        (record s {
          session =
              note_sequence (some (record { id = id; sequence = n })) (some (d.sequence % 2 ^ 64));
        })
        refl

abbrev pub session_inputs : String → String → ℕ → Fields → List Later → List Input
session_inputs id url n rest ds =
    message (dispatch_json "READY" n (ready_data id url rest)) ∷ messages ds

run-session :
    (id url : String) (n : ℕ) (rest : Fields) (ds : List Later) (s : Shard)
    → (run (session_inputs id url n rest ds) s).0 ≡ record s {
      session = some (record { id = id; sequence = last_sequence (n % 2 ^ 64) ds });
      resume_gateway_url = some url;
    }
unfolding run
run-session id url n rest ds s =
    ap (λ t. (run (messages ds) t).0)
      (ap (λ r. r.0) (on_message_text (dispatch_json "READY" n (ready_data id url rest)) s)
        ∙ handle-ready id url n rest s)
    ∙ run-dispatches id (n % 2 ^ 64) ds _ refl

-- What happens when the gateway asks for a new connection, up to the wait before it is opened.
abbrev pub reconnecting : List Input
reconnecting = message reconnect_json ∷ done reader none ∷ next_event false ∷ []

close_resume-keeps :
    (s : Shard)
    → ((close_impl close_resume reader s).0.session ≡ s.session)
      × ((close_impl close_resume reader s).0.resume_gateway_url ≡ s.resume_gateway_url)
      × ((close_impl close_resume reader s).0.intentional_close ≡ s.intentional_close)
unfolding close_impl
close_resume-keeps s = ground arith

lost : (s : Shard) → s.intentional_close ≡ false → (ensure_connected_then_read false s).0 ≡ s
unfolding ensure_connected_then_read
lost s c = ground arith

run-reconnecting :
    (s : Shard)
    → s.intentional_close ≡ false
    → (run reconnecting s).0 ≡ (close_impl close_resume reader s).0
unfolding run handle on_done
run-reconnecting s c =
    ap (λ r. (ensure_connected_then_read false r.0).0)
      (on_message_text reconnect_json s ∙ handle-reconnect s)
    ∙ lost _ ((close_resume-keeps s).2 ∙ c)

on_backoff-url :
    (url : String) (s : Shard)
    → s.intentional_close ≡ false
    → s.resume_gateway_url ≡ some url
    → (on_backoff none s).1 ≡ connect (resumed url) ∷ []
unfolding on_backoff
on_backoff-url url s c u =
    ap (λ r. r.1) (if_false {A = Shard × List Action} _ _ c) ∙ ap (λ o. connect (url_of o) ∷ []) u

on_connected-session :
    (s : Shard)
    → ((on_connected none none s).0.session ≡ s.session)
      × ((on_connected none none s).0.has_ws ≡ true)
unfolding on_connected after_reconnect read_one
on_connected-session s = (refl, refl)

on_backoff-keeps : (s : Shard) → (on_backoff none s).0 ≡ s
unfolding on_backoff after_reconnect
on_backoff-keeps s = ground arith

start_heartbeat_lem :
    (n : ℕ) (s : Shard)
    → s.has_ws ≡ true
    → start_heartbeat n s ≡ (
      record s { heartbeat_interval = n; has_timer = true; heartbeat_running = true },
      start_timer n ∷ [],
    )
unfolding start_heartbeat
start_heartbeat_lem n s w = if_true {A = Shard × List Action} _ _ w

resume_lem :
    (ses : Session) (o : Option Session) (s : Shard)
    → o ≡ some ses
    → s.has_ws ≡ true
    → s.session ≡ some ses
    → introduce o s ≡ (s, send (resume ses.id ses.sequence) reader ∷ [])
unfolding introduce send_resume_async
resume_lem ses none s o w e = absurd (cc)
resume_lem ses (some ses') s o w e =
    if_true {A = Shard × List Action} _ _ w ∙ ap (λ x. resume_with x reader s) e

hello-resumes :
    (id : String) (n ms : ℕ) (s : Shard)
    → s.has_ws ≡ true
    → s.session ≡ some (record { id = id; sequence = n })
    → (handle (message (hello_json ms)) s).1
      ≡ start_timer (ms % 2 ^ 32) ∷ send (resume id n) reader ∷ []
hello-resumes id n ms s w e =
    ap (λ r. r.1) (on_message_text (hello_json ms) s ∙ handle-hello ms s)
    ∙ (ap (λ r. r.1 ++ (introduce s.session r.0).1)
          (start_heartbeat_lem (ms % 2 ^ 32) (record s { last_heartbeat_acked = true }) w)
        ∙ ap (λ r. start_timer (ms % 2 ^ 32) ∷ r.1)
            (resume_lem (record { id = id; sequence = n }) s.session _ e w e))

-- Where a shard has received `READY` with a session and an address, and then other dispatches, each
-- with a number, and the gateway asks for a new connection: the shard connects to the address that
-- it got, and on the hello of the new connection it resumes the session with the number of the
-- last dispatch, in 64 bits. This is for a shard that was not closed on purpose, and messages that
-- are not compressed.
pub session_resumed :
    (id url : String) (n ms : ℕ) (rest : Fields) (ds : List Later) (s : Shard)
    → s.intentional_close ≡ false
    → let t = (run reconnecting (run (session_inputs id url n rest ds) s).0).0 in
      ((handle (backed_off none) t).1 ≡ connect (resumed url) ∷ [])
      × ((handle (message (hello_json ms)) (run (backed_off none ∷ connected none none ∷ []) t).0).1
          ≡ start_timer (ms % 2 ^ 32)
            ∷ send (resume id (last_sequence (n % 2 ^ 64) ds)) reader
            ∷ [])
unfolding run
session_resumed id url n ms rest ds s c =
    let t : Shard = (run reconnecting (run (session_inputs id url n rest ds) s).0).0 in
    let u : Shard = (run (session_inputs id url n rest ds) s).0 in
    let known = run-session id url n rest ds s in
    let open_still = ap (λ (x : Shard). x.intentional_close) known ∙ c in
    let same = run-reconnecting u open_still in
    let k = close_resume-keeps u in
    let session =
      ap (λ (x : Shard). x.session) same ∙ (k.0 ∙ ap (λ (x : Shard). x.session) known) in
    let address =
      ap (λ (x : Shard). x.resume_gateway_url) same
      ∙ (k.1 ∙ ap (λ (x : Shard). x.resume_gateway_url) known) in
    let unclosed = ap (λ (x : Shard). x.intentional_close) same ∙ (k.2 ∙ open_still) in
    let back = on_backoff-keeps t in
    let new = on_connected-session (on_backoff none t).0 in
    (
      on_backoff-url url t unclosed address,
      hello-resumes id (last_sequence (n % 2 ^ 64) ds) ms
          (on_connected none none (on_backoff none t).0).0 new.1
          (new.0 ∙ (ap (λ (x : Shard). x.session) back ∙ session)),
    )
