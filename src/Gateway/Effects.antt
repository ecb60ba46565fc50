-- ===== src/Gateway/Effects.antt =====
-- What the steps of src/shard.cpp that do not concern the socket have in common.
use mathlib.Core.Path.{subst}
use ekizu.Prelude.{
  sym, if_true, if_false, Bool-cases, inl, inr, ℕ, ◌+◌, ◌≡◌, ◌≤◌, refl, Bool, true, false, not,
  ◌||◌, Option, none, some, List, [], ◌∷◌, ◌++◌, ◌%◌, ◌^◌, ◌∙◌, if◌then◌else◌, arith, All,
  All-append,
}
use Prim.Native.String.{String}
use ekizu.Gateway.Json.{Json, Number, to_unsigned, at, as_text, as_object, as_boolean, as_number}
use ekizu.Gateway.Shard.{
  not_connected, success, Result, Answer, event, failed, Session, Payload, heartbeat, sequence_of,
  Handler, reader, ignored, Action, complete, thrown, read, back_off, connect, send, close_ws, call,
  Shard, Step, ◌>>◌, close_impl, send_if_connected, send_heartbeat_async, send_identify_async,
  resume_with, send_resume_async, start_heartbeat, on_tick,
}
use ekizu.Gateway.Messages.Events.{event_names}
use ekizu.Gateway.Messages.{
  note_sequence, is_known, event_from_str, complete_or_throw, or_zero, finish_dispatch, ready_with,
  dispatch_with, as_sequence, on_dispatch, on_reconnect, invalid_session_with, on_invalid_session,
  introduce, hello_with, hello_value, on_hello, on_heartbeat_ack, on_opcode, opcode_with,
  handle_gateway_payload, Message, inflate_with, on_message,
}

abbrev pub of_handler : Handler → ℕ
of_handler reader = 1
of_handler _ = 0

-- Whether an action answers a call of `next_event`, or starts what the call waits for.
abbrev pub of_action : Action → ℕ
of_action (complete a) = 1
of_action read = 1
of_action (back_off n) = 1
of_action (connect url) = 1
of_action (send p h) = of_handler h
of_action (close_ws code h) = of_handler h
of_action (call h ec) = of_handler h
of_action _ = 0

abbrev pub pending : List Action → ℕ
pending [] = 0
pending (a ∷ more) = of_action a + pending more

-- The exceptions.
abbrev pub of_throw : Action → ℕ
of_throw thrown = 1
of_throw _ = 0

abbrev pub throws : List Action → ℕ
throws [] = 0
throws (a ∷ more) = of_throw a + throws more

-- For a call of `next_event`, `n` things are done: answers, things asked for, and exceptions, of which
-- there are at most `k`.
abbrev pub Answers : ℕ → ℕ → List Action → Type 0
Answers k n actions = (pending actions + throws actions ≡ n) × (throws actions ≤ k)

-- How many exceptions there may be.
abbrev pub misfit : Bool → ℕ
misfit true = 0
misfit false = 1

abbrev pub is_connecting : Action → Bool
is_connecting (back_off n) = true
is_connecting (connect url) = true
is_connecting _ = false

-- No action connects, or waits to connect.
abbrev pub NoConnecting : List Action → Type 0
NoConnecting = All (λ a. is_connecting a ≡ false)

-- A step that does `n` for a call of `next_event`, with at most `k` exceptions, does not connect,
-- counts no failed attempt, and leaves a shard closed that was closed on purpose.
abbrev pub Handled : ℕ → ℕ → Shard → Shard × List Action → Type 0
Handled k n s r =
    (pending r.1 + throws r.1 ≡ n)
    × (r.0.reconnect_attempts ≡ s.reconnect_attempts)
    × ((not s.intentional_close || r.0.intentional_close) ≡ true)
    × NoConnecting r.1
    × (throws r.1 ≤ k)

pending-append : (xs ys : List Action) → pending (xs ++ ys) ≡ pending xs + pending ys
pending-append [] ys = omega arith
pending-append (a ∷ xs) ys = omega (arith, pending-append xs ys)

throws-append : (xs ys : List Action) → throws (xs ++ ys) ≡ throws xs + throws ys
throws-append [] ys = omega arith
throws-append (a ∷ xs) ys = omega (arith, throws-append xs ys)

implies_trans : (a b c : Bool) → (not a || b) ≡ true → (not b || c) ≡ true → (not a || c) ≡ true
implies_trans true true true h k = refl
implies_trans true true false h k = k
implies_trans true false c h k = cc
implies_trans false b c h k = refl

Handled-then :
    (m n : ℕ) (s : Shard) (f g : Step)
    → Handled 0 m s (f s)
    → Handled 0 n (f s).0 (g (f s).0)
    → Handled 0 (m + n) s ((f >> g) s)
Handled-then m n s f g (p, a, c, q, t) (p', a', c', q', t') =
    let both = throws-append (f s).1 (g (f s).0).1 in
    (
      omega (arith, pending-append (f s).1 (g (f s).0).1, both, p, p'),
      a' ∙ a,
      implies_trans s.intentional_close (f s).0.intentional_close _ c c',
      All-append (λ x. is_connecting x ≡ false) _ _ q q',
      omega (arith, both, t, t'),
    )

weaken : (k n : ℕ) (s : Shard) (r : Shard × List Action) → Handled 0 n s r → Handled k n s r
weaken k n s r (p, a, c, q, t) = (p, a, c, q, omega (arith, t))

pub close_impl-Handled :
    (code : ℕ) (h : Handler) (s : Shard) → Handled 0 (of_handler h) s (close_impl code h s)
unfolding close_impl
close_impl-Handled code h s = ground arith

pub send-Handled :
    (p : Payload) (h : Handler) (s : Shard) → Handled 0 (of_handler h) s (send_if_connected p h s)
unfolding send_if_connected
send-Handled p h s = ground arith

pub on_tick-Handled : (r : Result) (s : Shard) → Handled 0 0 s (on_tick r s)
unfolding on_tick
on_tick-Handled (some ec) s = ground arith
on_tick-Handled none s = ground (
  arith,
  close_impl-Handled 4009 ignored
      (record s { missed_heartbeats = s.missed_heartbeats + 1; heartbeat_running = false }),
)

keep_or_set : (c : Bool) → (not c || c) ≡ true
keep_or_set true = refl
keep_or_set false = refl

converted :
    (name : String) (value : Json) → (a : Answer) × (event_from_str true name value ≡ some a)
unfolding event_from_str
converted name value = elim (Bool-cases (is_known name event_names)) [
  | inl known ↦ (event name value, if_true _ _ known)
  | inr unknown ↦ (failed success, if_false _ _ unknown)
]

completed-Handled :
    (a : Answer) (o : Option Answer) (s t : Shard)
    → o ≡ some a
    → t.reconnect_attempts ≡ s.reconnect_attempts
    → t.intentional_close ≡ s.intentional_close
    → Handled 0 1 s (t, complete_or_throw o ∷ [])
unfolding complete_or_throw
completed-Handled a o s t e r c =
    subst (λ x. Handled 0 1 s (t, complete_or_throw x ∷ [])) (sym e)
      (
        refl,
        r,
        subst (λ x. (not x || t.intentional_close) ≡ true) c (keep_or_set t.intentional_close),
        (refl, tt),
        omega arith,
      )

thrown-Handled :
    (o : Option Answer) (s t : Shard)
    → t.reconnect_attempts ≡ s.reconnect_attempts
    → t.intentional_close ≡ s.intentional_close
    → Handled 1 1 s (t, complete_or_throw o ∷ [])
unfolding complete_or_throw
thrown-Handled none s t r c = (
  refl,
  r,
  subst (λ x. (not x || t.intentional_close) ≡ true) c (keep_or_set t.intentional_close),
  (refl, tt),
  omega arith,
)
thrown-Handled (some a) s t r c =
    weaken 1 1 s (t, complete_or_throw (some a) ∷ []) (completed-Handled a (some a) s t refl r c)

finish-Handled :
    (b : Bool) (name : String) (value : Json) (n : Option ℕ) (s : Shard)
    → Handled (misfit b) 1 s (finish_dispatch b name value n s)
unfolding finish_dispatch
finish-Handled true name value n s =
    let (a, e) = converted name value in
    completed-Handled a (event_from_str true name value) s
      (record s { session = note_sequence s.session n }) e refl refl
finish-Handled false name value n s =
    thrown-Handled (event_from_str false name value) s
      (record s { session = note_sequence s.session n }) refl refl

ready-Handled :
    (b : Bool) (url id : Option String) (value : Json) (n : Option ℕ) (s : Shard)
    → Handled (misfit b) 1 s (ready_with b url id value n s)
unfolding ready_with
ready-Handled b none id value n s = ground arith
ready-Handled b (some url) none value n s = ground arith
ready-Handled b (some url) (some id) value n s = finish-Handled b "READY" value n (record s {
  session = some (record { id = id; sequence = or_zero n });
  resume_gateway_url = some url;
})

dispatch-Handled :
    (b : Bool) (name : Option String) (value : Option Json) (n : Option ℕ) (s : Shard)
    → Handled (misfit b) 1 s (dispatch_with b name value n s)
unfolding dispatch_with
dispatch-Handled b none value n s = ground arith
dispatch-Handled b (some name) none n s = ground arith
dispatch-Handled b (some name) (some value) n s = ground (
  arith,
  finish-Handled b name value n s,
  ready-Handled b (as_text (at "resume_gateway_url" value)) (as_text (at "session_id" value)) value
      n s,
)

invalid_session-Handled : (b : Option Bool) (s : Shard) → Handled 0 1 s (invalid_session_with b s)
unfolding invalid_session_with
invalid_session-Handled none s = ground arith
invalid_session-Handled (some true) s = close_impl-Handled 4000 reader s
invalid_session-Handled (some false) s = close_impl-Handled 1000 reader s

start_heartbeat-Handled : (n : ℕ) (s : Shard) → Handled 0 0 s (start_heartbeat n s)
unfolding start_heartbeat
start_heartbeat-Handled n s = ground arith

resume-Handled :
    (o : Option Session) (s : Shard)
    → Handled 0 1 s
        (if s.has_ws then resume_with o reader s else (s, call reader not_connected ∷ []))
unfolding resume_with
resume-Handled none s = ground arith
resume-Handled (some ses) s = ground arith

introduce-Handled : (ses : Option Session) (s : Shard) → Handled 0 1 s (introduce ses s)
unfolding introduce send_identify_async send_resume_async
introduce-Handled none s = ground arith
introduce-Handled (some ses) s = resume-Handled s.session s

hello-Handled : (n : Option ℕ) (s : Shard) → Handled 0 1 s (hello_with n s)
unfolding hello_with
hello-Handled none s = ground arith
hello-Handled (some n) s =
    Handled-then 0 1 s (start_heartbeat (n % 2 ^ 32)) (introduce s.session)
      (start_heartbeat-Handled (n % 2 ^ 32) s)
      (introduce-Handled s.session (start_heartbeat (n % 2 ^ 32) s).0)

on_hello-Handled : (json : Json) (s : Shard) → Handled 0 1 s (on_hello json s)
unfolding on_hello
on_hello-Handled json s =
    hello-Handled (hello_value (at "d" json)) (record s { last_heartbeat_acked = true })

opcode-Handled :
    (b : Bool) (op : ℕ) (json : Json) (s : Shard) → Handled (misfit b) 1 s (on_opcode b op json s)
unfolding on_opcode on_dispatch on_reconnect on_invalid_session on_heartbeat_ack
    send_heartbeat_async
opcode-Handled b op json s = ground (
  arith,
  dispatch-Handled b (as_text (at "t" json)) (as_object (at "d" json))
      (as_sequence (as_number (at "s" json))) s,
  send-Handled (heartbeat (sequence_of s.session)) reader s,
  close_impl-Handled 4000 reader s,
  invalid_session-Handled (as_boolean (at "d" json)) s,
  on_hello-Handled json s,
)

number-Handled :
    (b : Bool) (n : Option Number) (json : Json) (s : Shard)
    → Handled (misfit b) 1 s (opcode_with b n json s)
unfolding opcode_with
number-Handled b none json s = ground arith
number-Handled b (some n) json s = opcode-Handled b (to_unsigned 8 n) json s

payload-Handled :
    (b : Bool) (json : Option Json) (s : Shard)
    → Handled (misfit b) 1 s (handle_gateway_payload b json s)
unfolding handle_gateway_payload
payload-Handled b none s = ground arith
payload-Handled b (some json) s = number-Handled b (as_number (at "op" json)) json s

inflate-Handled :
    (b : Bool) (r : Result) (json : Option Json) (s : Shard)
    → Handled (misfit b) 1 s (inflate_with b r json s)
unfolding inflate_with
inflate-Handled b none json s = payload-Handled b json s
inflate-Handled b (some ec) json s = ground arith

pub on_message-Handled :
    (msg : Message) (s : Shard) → Handled (misfit msg.converts) 1 s (on_message msg s)
unfolding on_message
on_message-Handled msg s = ground (
  arith,
  inflate-Handled msg.converts msg.inflate_error msg.inflated s,
  payload-Handled msg.converts msg.plain s,
)
