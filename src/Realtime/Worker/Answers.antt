-- ===== src/Realtime/Worker/Answers.antt =====
-- What the worker of src/runner.rs sends over a connection, where the clock stands still and the
-- runtime loop takes every event of a kind alike.
use kelinode_rs.Prelude.{
  ◌≤◌, true, false, ◌&&◌, Option, none, some, List, [], ◌∷◌, ◌++◌, leb, if◌then◌else◌, length, take,
  length-take, length-append, All, All-append, ◌≡◌, refl, sym, ap, ◌∙◌, arith, if_intro,
}
use mathlib.Core.Path.{subst}
use kelinode_rs.Prelude.Int.{ℤ}
use kelinode_rs.Prelude.Text.{Text, text, text_eq, text_eq_iff, trim}
use kelinode_rs.Prelude.Result.{Result, ok, err}
use kelinode_rs.Runner.{RuntimeLoopEventKind, reload_event, refresh_users_event}
use kelinode_rs.Realtime.{
  RealtimeMessage, RealtimeOptions, RealtimeInboundAction, ping, pong, task_of,
  realtime_inbound_action, realtime_invalidate_action, realtime_runtime_task,
  should_force_realtime_config_reload, build_realtime_receipt, truncate_realtime_receipt_message,
}
use kelinode_rs.Realtime.Worker.{
  Fate, outcome, RealtimeRuntime, ◌then◌, runtime_loop_event_for_task, send_realtime_runtime_event,
  send_event, serve_task, serve_messages, serve_realtime_runtime_transport,
}

-- The field that says in words what became of a request.
abbrev pub IsBrief : RealtimeMessage → Type 0
IsBrief m = length m.message ≤ 240

abbrev pub reload_asked : RuntimeLoopEventKind × Text × Text
reload_asked = (reload_event, text "config", text "reload queued")

abbrev pub refresh_asked : RuntimeLoopEventKind × Text × Text
refresh_asked = (refresh_users_event, text "users", text "user refresh queued")

-- What a message asks of the loop, with the topic and the message of its first receipt.
abbrev pub asked : RealtimeMessage → Option (RuntimeLoopEventKind × Text × Text)
asked m =
    if text_eq m.message_type (text "invalidate")
    then (if text_eq m.topic (text "config")
        then some reload_asked
        else if text_eq m.topic (text "users")
        then some refresh_asked
        else none)
    else none

module _ (now : ℤ) (fate : RuntimeLoopEventKind → Fate) where
  -- The two receipts: that the event is received, and what became of it.
  abbrev pub receipts :
      RealtimeMessage → Option (RuntimeLoopEventKind × Text × Text) → List RealtimeMessage
  receipts m none = []
  receipts m (some (kind, topic, queued)) =
      let (status, message) = outcome (fate kind) in
      build_realtime_receipt topic m (text "received") queued now
      ∷ build_realtime_receipt topic m status message now
      ∷ []

  abbrev pub answer : RealtimeMessage → List RealtimeMessage
  answer m = if text_eq m.message_type (text "ping") then pong now ∷ [] else receipts m (asked m)

  abbrev pub answers : List RealtimeMessage → List RealtimeMessage
  answers [] = []
  answers (m ∷ ms) = answer m ++ answers ms

  receipt-IsBrief :
      (topic : Text) (m : RealtimeMessage) (status message : Text)
      → IsBrief (build_realtime_receipt topic m status message now)
  unfolding build_realtime_receipt truncate_realtime_receipt_message
  receipt-IsBrief topic m status message =
      if_intro (λ (s : Text). length s ≤ 240) (leb (length (trim message)) 240)
        (λ h. ground (arith, h))
        (λ h. omega (
          arith,
          length-append (take 237 (trim message)) (text "..."),
          length-take 237 (trim message),
        ))

  receipts-IsBrief :
      (m : RealtimeMessage) (o : Option (RuntimeLoopEventKind × Text × Text))
      → All IsBrief (receipts m o)
  receipts-IsBrief m none = tt
  receipts-IsBrief m (some (kind, topic, queued)) =
      let (status, message) = outcome (fate kind) in
      (
        receipt-IsBrief topic m (text "received") queued,
        (receipt-IsBrief topic m status message, tt),
      )

  pub answers-IsBrief : (ms : List RealtimeMessage) → All IsBrief (answers ms)
  answers-IsBrief [] = tt
  answers-IsBrief (m ∷ ms) =
      All-append IsBrief (answer m) (answers ms)
        (if_intro (All IsBrief) (text_eq m.message_type (text "ping")) (λ _. (omega arith, tt))
          (λ _. receipts-IsBrief m (asked m)))
        (answers-IsBrief ms)

other_type : (s t u : Text) → text_eq s t ≡ true → text_eq t u ≡ false → text_eq s u ≡ false
other_type s t u h k = subst (λ x. text_eq x u ≡ false) (sym ((text_eq_iff s t).0 h)) k

module _ {C : Type 0} (send : RealtimeMessage → C → Result Text (Unit {0}) × C) (now : ℤ)
    (fate : RuntimeLoopEventKind → Fate) where
  -- Messages are sent in their order, until one is not.
  abbrev pub sends : List RealtimeMessage → C → Result Text (Unit {0}) × C
  sends [] c = (ok tt, c)
  sends (m ∷ ms) c = send m c then λ c2. sends ms c2

  abbrev pub steady : RealtimeRuntime C
  steady = record { send = send; unix_now = λ c. (now, c); submit = λ kind c. (fate kind, c) }

  then_assoc :
      (r : Result Text (Unit {0}) × C) (f g : C → Result Text (Unit {0}) × C)
      → (r then f then g) ≡ (r then λ c. (f c then g))
  then_assoc (ok _, c) f g = refl
  then_assoc (err e, c) f g = refl

  then_done : (r : Result Text (Unit {0}) × C) → (r then λ c. (ok tt, c)) ≡ r
  then_done (ok _, c) = refl
  then_done (err e, c) = refl

  sends-append :
      (a b : List RealtimeMessage) (c : C) → sends (a ++ b) c ≡ (sends a c then λ c2. sends b c2)
  sends-append [] b c = refl
  sends-append (m ∷ a) b c =
      ap (λ k. send m c then k) (λ i c2. sends-append a b c2 i)
      ∙ sym (then_assoc (send m c) (λ c2. sends a c2) (λ c2. sends b c2))

  event_lem :
      (m : RealtimeMessage) (o : Option (RuntimeLoopEventKind × Text × Text)) (c : C)
      → send_event steady m o c ≡ sends (receipts now fate m o) c
  unfolding send_realtime_runtime_event
  event_lem m none c = refl
  event_lem m (some (kind, topic, queued)) c =
      let (status, message) = outcome (fate kind) in
      ap (λ k. send (build_realtime_receipt topic m (text "received") queued now) c then k)
        (λ i c2. sym (then_done (send (build_realtime_receipt topic m status message now) c2)) i)

  abbrev Serves : RealtimeMessage → C → RealtimeInboundAction → Type 0
  Serves m c action = serve_task steady m (task_of now action) c ≡ sends (answer now fate m) c

  -- What is asked is not what a message of another type asks.
  asks_nothing :
      (m : RealtimeMessage) (c : C)
      → text_eq m.message_type (text "ping") ≡ false
      → text_eq m.message_type (text "invalidate") ≡ false
      → (ok tt, c) ≡ sends (answer now fate m) c
  asks_nothing m c h k = rw (h, k) refl

  pong_lem :
      (m : RealtimeMessage) (c : C)
      → text_eq m.message_type (text "ping") ≡ true
      → send (pong now) c ≡ sends (answer now fate m) c
  pong_lem m c h = rw h (sym (then_done (send (pong now) c)))

  invalidate_lem :
      (m : RealtimeMessage) (c : C)
      → text_eq m.message_type (text "ping") ≡ false
      → text_eq m.message_type (text "invalidate") ≡ true
      → Serves m c (realtime_invalidate_action m)
  unfolding realtime_invalidate_action runtime_loop_event_for_task
  invalidate_lem m c h k =
      let config = text_eq m.topic (text "config") in
      if_intro (Serves m c) (config && should_force_realtime_config_reload m)
        (λ p.
          let q : config ≡ true = ground (arith, p) in
          rw (h, k, q) (event_lem m (some reload_asked) c))
        (λ _.
          if_intro (Serves m c) config (λ p. rw (h, k, p) (event_lem m (some reload_asked) c))
            (λ p.
              if_intro (Serves m c) (text_eq m.topic (text "users"))
                (λ q. rw (h, k, p, q) (event_lem m (some refresh_asked) c))
                (λ q. rw (h, k, p, q) refl)))

  serve_task_lem :
      (m : RealtimeMessage) (c : C)
      → serve_task steady m (realtime_runtime_task m now) c ≡ sends (answer now fate m) c
  unfolding realtime_runtime_task realtime_inbound_action runtime_loop_event_for_task text_eq
  serve_task_lem m c =
      let t = m.message_type in
      if_intro (Serves m c) (text_eq t (text "hello_ack"))
        (λ h.
          asks_nothing m c (other_type t (text "hello_ack") (text "ping") h refl)
            (other_type t (text "hello_ack") (text "invalidate") h refl))
        (λ _.
          if_intro (Serves m c) (text_eq t (text "ping")) (λ h. pong_lem m c h)
            (λ no_ping.
              if_intro (Serves m c) (text_eq t (text "error"))
                (λ h.
                  asks_nothing m c no_ping (other_type t (text "error") (text "invalidate") h refl))
                (λ _.
                  if_intro (Serves m c) (text_eq t (text "invalidate"))
                    (λ h. invalidate_lem m c no_ping h) (λ h. asks_nothing m c no_ping h))))

  serve_messages_lem :
      (ms : List RealtimeMessage) (ending : Result Text (Unit {0})) (c : C)
      → serve_messages steady ms ending c ≡ (sends (answers now fate ms) c then λ c2. (ending, c2))
  unfolding serve_messages
  serve_messages_lem [] ending c = refl
  serve_messages_lem (m ∷ ms) ending c =
      ap (λ r. r then λ c2. serve_messages steady ms ending c2) (serve_task_lem m c)
      ∙ (ap (λ k. sends (answer now fate m) c then k) (λ i c2. serve_messages_lem ms ending c2 i)
          ∙ (sym (
                then_assoc (sends (answer now fate m) c) (λ c2. sends (answers now fate ms) c2)
                  (λ c2. (ending, c2)))
              ∙ ap (λ r. r then λ c2. (ending, c2))
                  (sym (sends-append (answer now fate m) (answers now fate ms) c))))

  abbrev pub sent : RealtimeOptions → List RealtimeMessage → List RealtimeMessage
  sent options ms = ping options now none ∷ answers now fate ms

  -- However a connection sends, if the clock stands still and the loop takes each event of a kind
  -- alike: a ping is sent first, then each message received is answered in its order, a ping by a
  -- pong, an invalidation of the configuration or the users by two receipts, that it is received and
  -- what became of it, any other by nothing; it ends at the first message that is not sent, or as
  -- the connection does, and the field `message` of what is sent has at most 240 characters.
  pub serve_transport-answers :
      (options : RealtimeOptions) (ms : List RealtimeMessage) (ending : Result Text (Unit {0}))
      (c : C)
      → (serve_realtime_runtime_transport steady options ms ending c
          ≡ (sends (sent options ms) c then λ c2. (ending, c2)))
        × All IsBrief (sent options ms)
  unfolding serve_realtime_runtime_transport
  serve_transport-answers options ms ending c = (
    ap (λ k. send (ping options now none) c then k) (λ i c2. serve_messages_lem ms ending c2 i)
        ∙ sym (
            then_assoc (send (ping options now none) c) (λ c2. sends (answers now fate ms) c2)
              (λ c2. (ending, c2))),
    (omega arith, answers-IsBrief now fate ms),
  )
