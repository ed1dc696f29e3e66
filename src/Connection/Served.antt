-- ===== src/Connection/Served.antt =====
-- The session map and the session queue of `ConnectionHandler` (src/net/arrow/mod.rs): every open
-- session stands in the queue from which the output buffer is filled.
pub mod Rounds
pub mod Close
use native.Mathlib.Decide.{ℕ_discrete}
use arrow_client.Base.{
  ℕ, zero, suc, ◌≡◌, ◌≢◌, refl, sym, ap, ◌∙◌, ◌⊎◌, inl, inr, Bool-cases, Bool, true, false, ◌||◌,
  Option, none, some, List, [], ◌∷◌, ◌++◌, length, ◌==◌, if◌then◌else◌, arith, some_inj,
}
use mathlib.Core.Path.{subst}
use arrow_client.Base.Dict.{
  Dict, lookup, contains_key, insert, remove, lookup-insert_self, lookup-insert_ne,
  lookup-remove_self, lookup-remove_ne,
}
use arrow_client.Base.Outcome.{Outcome, ok, err, panic, out_of_fuel}
use arrow_client.Connection.Requests.{process_service_request, deliver}
use arrow_client.Connection.SessionMap.{
  get_session_context, in_session, open_session, service_address, create_session_context,
  remove_session_context,
}
use arrow_client.Connection.Session
use arrow_client.Connection.Session.{S, Live}
use arrow_client.Connection.Pump.{move_input, pump_next, fill, fill_output_buffer}
use arrow_client.Connection.State.{SessionContext, Handler, Env}

unfoldable pub has : ℕ → List ℕ → Bool
has k [] = false
has k (j ∷ js) = j == k || has k js

has-append : (k : ℕ) (js ls : List ℕ) → has k (js ++ ls) ≡ (has k js || has k ls)
unfolding has
has-append k [] ls = refl
has-append k (j ∷ js) ls = ground (arith, has-append k js ls)

-- Each session is stored under its own ID, and its ID is in the queue.
abbrev pub Served : Dict ℕ SessionContext → List ℕ → Type 0
Served sessions queue =
    (k : ℕ) (ctx : SessionContext)
    → lookup ℕ_discrete k sessions ≡ some ctx
    → (ctx.session_id ≡ k) × (has k queue ≡ true)

abbrev pub IsServed : Handler → Type 0
IsServed h = Served h.sessions h.session_queue

pub insert-Served :
    (k : ℕ) (ctx : SessionContext) (sessions : Dict ℕ SessionContext) (queue more : List ℕ)
    → Served sessions queue
    → ctx.session_id ≡ k
    → has k more ≡ true
    → ((j : ℕ) → has j queue ≡ true → j ≢ k → has j more ≡ true)
    → Served (insert ℕ_discrete k ctx sessions) more
insert-Served k ctx sessions queue more served own queued kept j found e = elim (ℕ_discrete k j) [
  | yes same ↦
      let same_ctx : found ≡ ctx = sym (
        some_inj (
          sym (lookup-insert_self ℕ_discrete k ctx sessions)
          ∙ ap (λ i. lookup ℕ_discrete i (insert ℕ_discrete k ctx sessions)) same
          ∙ e)) in
      (
        ap (λ (c : SessionContext). c.session_id) same_ctx ∙ own ∙ same,
        ap (λ i. has i more) (sym same) ∙ queued,
      )
  | no other ↦
      let (own', queued') =
        served j found (sym (lookup-insert_ne ℕ_discrete k j ctx sessions other) ∙ e) in
      (own', kept j queued' (λ q. other (sym q)))
]

pub remove-Served :
    (k : ℕ) (sessions : Dict ℕ SessionContext) (queue : List ℕ)
    → Served sessions queue
    → Served (remove ℕ_discrete k sessions) queue
remove-Served k sessions queue served j found e = elim (ℕ_discrete k j) [
  | yes same ↦
      let gone : lookup ℕ_discrete j (remove ℕ_discrete k sessions) ≡ none =
        ap (λ i. lookup ℕ_discrete i (remove ℕ_discrete k sessions)) (sym same)
        ∙ lookup-remove_self ℕ_discrete k sessions in
      absurd (ground (arith, sym gone ∙ e))
  | no other ↦ served j found (sym (lookup-remove_ne ℕ_discrete k j sessions other) ∙ e)
]

-- The queue with one more ID at its end.
has-append_last : (k j : ℕ) (queue : List ℕ) → has j queue ≡ true → has j (queue ++ k ∷ []) ≡ true
has-append_last k j queue e = ground (arith, has-append j queue (k ∷ []))

has_last : (k : ℕ) (queue : List ℕ) → has k (queue ++ k ∷ []) ≡ true
unfolding has
has_last k queue = ground (arith, has-append k queue (k ∷ []))

-- An ID that moves from the front of the queue to its end is still there, and so are the others.
pub has_rotated :
    (k j : ℕ) (queue : List ℕ) → has j (k ∷ queue) ≡ true → has j (queue ++ k ∷ []) ≡ true
unfolding has
has_rotated k j queue e = ground (arith, has-append j queue (k ∷ []))

create_cases :
    (env : Env) (service_id session_id : ℕ) (h : Handler)
    → ((create_session_context env service_id session_id h).0 ≡ h)
      ⊎ ((create_session_context env service_id session_id h).0
          ≡ open_session service_id session_id h)
unfolding create_session_context
create_cases env service_id session_id h = ground arith

-- However an attempt to open a session ends, each open session is stored under its own ID and
-- stands in the queue, if it was so before.
pub create-IsServed :
    (env : Env) (service_id session_id : ℕ) (h : Handler)
    → IsServed h
    → IsServed ((create_session_context env service_id session_id h).0)
unfolding open_session
create-IsServed env service_id session_id h served =
    elim (create_cases env service_id session_id h) [
      | inl e ↦ subst IsServed (sym e) served
      | inr e ↦ subst IsServed (sym e) (
          insert-Served session_id (Session.new service_id session_id) h.sessions h.session_queue
            (h.session_queue ++ session_id ∷ []) served refl (has_last session_id h.session_queue)
            (λ j q n. has-append_last session_id j h.session_queue q))
    ]

module _ {A : Type 0} (k : ℕ) (ctx : SessionContext) (op : S A)
    (keeps : (l : Live) → (op l).0.ctx.session_id ≡ l.ctx.session_id) where
  pub in_session-Served :
      (h : Handler) (queue more : List ℕ)
      → Served h.sessions queue
      → ctx.session_id ≡ k
      → has k more ≡ true
      → ((j : ℕ) → has j queue ≡ true → j ≢ k → has j more ≡ true)
      → Served ((in_session k ctx op h).0.sessions) more
  in_session-Served h queue more served own queued kept =
      insert-Served k _ h.sessions queue more served (keeps _ ∙ own) queued kept

pub drop_input_bytes_keeps :
    (n : ℕ) (l : Live) → (Session.drop_input_bytes n l).0.ctx.session_id ≡ l.ctx.session_id
unfolding Session.drop_input_bytes Session.update_socket_events
drop_input_bytes_keeps n l = ground arith

pub send_message_keeps :
    (now : ℕ) (bytes : List ℕ) (l : Live)
    → (Session.send_message now bytes l).0.ctx.session_id ≡ l.ctx.session_id
unfolding Session.send_message Session.update_socket_events
send_message_keeps now bytes l = ground arith
