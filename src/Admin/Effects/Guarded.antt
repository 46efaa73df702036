-- ===== src/Admin/Effects/Guarded.antt =====
-- internal/admin/callbacks.go: what a press does in Telegram, in the corpus and in the evidence, once
-- the presser is authorized and, for a decision, the incident is claimed.
use telegram_antispam.Common.{
  same, any, ℕ, ℤ, same_refl, Bool, true, false, List, ◌∷◌, Option, none, some, ◌≡◌, arith, String,
}
use telegram_antispam.Domain.{
  Action, none_action, delete_mute, mute, ban, delete_only, quarantine, other,
}
use telegram_antispam.Store.Tables.{IncidentCard}
use telegram_antispam.Store.Incidents.{IncidentRow}
use telegram_antispam.Incident.World.{Result, ok, err}
use telegram_antispam.Admin.World.{
  chat_administrators, Event, unban_member, unrestrict_member, unban_sender_chat, delete_messages,
  Env, Block, call, ◌>>=◌,
}
use telegram_antispam.Admin.Effects.{
  authorized_by, is_authorized, must, undo_unknown, unmute, undo_action, undo_channel, undo,
  train_tokens, train, record_confirmation, dropped, delete_copies, delete_evidence_of,
}
use telegram_antispam.Admin.Guard.{
  Press, names, holds, Steady, Steady-bind, Triple, Triple-pure, Triple-when, Triple-bind,
  Triple-get_administrators, Steady-pure, Steady-if, Steady-call, Steady-train_corpus, steady_rules,
}

module _ (env : Env) (presser : Press) (n : ℕ) {R : Type 0} where
  Steady-must :
      {A : Type 0} {P : List Event → Bool} (r : Result (Unit {0})) (rest : Block R (Option A))
      → Steady P rest
      → Steady P (must env r rest)
  unfolding must
  Steady-must (ok u) rest h = h
  Steady-must (err e) rest h = Steady-pure none

  -- A call that decides, and one that must succeed.
  Steady-step :
      {A : Type 0} (e : Result (Unit {0}) → Event) (rest : Block R (Option A))
      → ((r : Result (Unit {0})) (es : List Event)
          → holds presser n true true es ≡ true
          → holds presser n true true (e r ∷ es) ≡ true)
      → Steady (holds presser n true true) rest
      → Steady (holds presser n true true) (call env e >>= λ r. must env r rest)
  Steady-step e rest k h = Steady-bind _ _ (Steady-call env e k) (λ r. Steady-must r rest h)

  Steady-unban :
      {A : Type 0} (chat user : ℤ) (rest : Block R (Option A))
      → Steady (holds presser n true true) rest
      → Steady
          (holds presser n true true)
          (call env (unban_member chat user) >>= λ r. must env r rest)
  Steady-unban chat user rest h =
      Steady-step (unban_member chat user) rest (λ r es h. ground (arith, h)) h

  Steady-unrestrict :
      {A : Type 0} (chat user : ℤ) (rest : Block R (Option A))
      → Steady (holds presser n true true) rest
      → Steady
          (holds presser n true true)
          (call env (unrestrict_member chat user) >>= λ r. must env r rest)
  Steady-unrestrict chat user rest h =
      Steady-step (unrestrict_member chat user) rest (λ r es h. ground (arith, h)) h

  Steady-undo_unknown :
      (inc : IncidentRow) → Steady {R = R} (holds presser n true true) (undo_unknown env inc)
  unfolding undo_unknown
  Steady-undo_unknown inc =
      Steady-unban inc.chat_id inc.user_id _
        (Steady-unrestrict inc.chat_id inc.user_id _ (Steady-pure _))

  Steady-unmute : (inc : IncidentRow) → Steady {R = R} (holds presser n true true) (unmute env inc)
  unfolding unmute
  Steady-unmute inc = Steady-unrestrict inc.chat_id inc.user_id _ (Steady-pure _)

  Steady-undo_action :
      (inc : IncidentRow) (a : Action)
      → Steady {R = R} (holds presser n true true) (undo_action env inc a)
  unfolding undo_action
  Steady-undo_action inc ban = Steady-unban inc.chat_id inc.user_id _ (Steady-pure _)
  Steady-undo_action inc mute = Steady-unmute inc
  Steady-undo_action inc delete_mute = Steady-unmute inc
  Steady-undo_action inc none_action = Steady-pure _
  Steady-undo_action inc delete_only = Steady-pure _
  Steady-undo_action inc quarantine = Steady-pure _
  Steady-undo_action inc (other s) = Steady-pure _

  Steady-undo_channel :
      (inc : IncidentRow) → Steady {R = R} (holds presser n true true) (undo_channel env inc)
  unfolding undo_channel
  Steady-undo_channel inc =
      Steady-step (unban_sender_chat inc.chat_id inc.sender_chat_id) _ (λ r es h. ground (arith, h))
        (Steady-pure _)

  pub Steady-undo : (inc : IncidentRow) → Steady {R = R} (holds presser n true true) (undo env inc)
  unfolding undo
  Steady-undo inc =
      search (steady_rules, Steady-undo_channel, Steady-undo_unknown, Steady-undo_action) depth 8

  Steady-train_tokens :
      (inc : IncidentRow) (label phrase : String) (o : Option (Option (List String)))
      → Steady {R = R} (holds presser n true true) (train_tokens env inc label phrase o)
  unfolding train_tokens
  Steady-train_tokens inc label phrase none = Steady-pure _
  Steady-train_tokens inc label phrase (some none) = Steady-pure _
  Steady-train_tokens inc label phrase (some (some tokens)) =
      Steady-bind _ _
        (Steady-train_corpus env inc.chat_id label tokens (λ b es h. ground (arith, h)))
        (λ b. search steady_rules)

  pub Steady-train :
      (inc : IncidentRow) (label phrase : String)
      → Steady {R = R} (holds presser n true true) (train env inc label phrase)
  unfolding train
  Steady-train inc label phrase = search (steady_rules, Steady-train_tokens)

  pub Steady-record_confirmation :
      (inc : IncidentRow) (origin : String)
      → Steady {R = R} (holds presser n true true) (record_confirmation env inc origin)
  unfolding record_confirmation
  Steady-record_confirmation inc origin = search (steady_rules, Steady-train)

  Steady-dropped :
      (id : ℕ) (chat : ℤ) (ids : List ℤ) (r : Result (Unit {0}))
      → Steady {R = R} (holds presser n true false) (dropped env id chat ids r)
  unfolding dropped
  Steady-dropped id chat ids (ok u) = search steady_rules
  Steady-dropped id chat ids (err e) = search steady_rules

  Steady-delete_copies :
      (id : ℕ) (o : Option (ℤ × List ℤ))
      → Steady {R = R} (holds presser n true false) (delete_copies env id o)
  unfolding delete_copies
  Steady-delete_copies id none = Steady-pure _
  Steady-delete_copies id (some (chat, ids)) = Steady-if _ _ _ (Steady-pure _) (
      Steady-bind _ _ (Steady-call env (delete_messages chat ids) (λ r es h. ground (arith, h)))
        (λ r. Steady-dropped id chat ids r))

  pub Steady-delete_evidence_of :
      (id : ℕ) (card : IncidentCard)
      → Steady {R = R} (holds presser n true false) (delete_evidence_of env id card)
  unfolding delete_evidence_of
  Steady-delete_evidence_of id card = search (steady_rules, Steady-delete_copies)

-- Whether the presser is authorized, and with what is recorded of it.
abbrev pub granted : Option Bool → Bool
granted (some true) = true
granted _ = false

still_granted :
    (p : Press) (b : Bool) (es : List Event)
    → holds p 0 b false es ≡ true
    → holds p 0 (granted (some b)) false es ≡ true
still_granted p true es h = h
still_granted p false es h = h

named_admin :
    (p : Press) (r : Result (List ℤ)) (es : List Event)
    → holds p 0 false false es ≡ true
    → holds p 0 (names p.user r) false (chat_administrators p.chat r ∷ es) ≡ true
named_admin p r es h = ground (arith, h, same_refl p.chat)

module _ (env : Env) (p : Press) {E : List Event → Bool} {R : Type 0} where
  Triple-authorized_by :
      (r : Result (List ℤ))
      → Triple {R = R}
          (holds p 0 (names p.user r) false)
          (λ o. holds p 0 (granted o) false)
          E
          (authorized_by env p.user r)
  unfolding authorized_by
  Triple-authorized_by (err e) = Triple-pure (λ o. holds p 0 (granted o) false) none (λ es h. h)
  Triple-authorized_by (ok admins) =
      Triple-pure (λ o. holds p 0 (granted o) false) _ (still_granted p (names p.user (ok admins)))

  -- The presser of a callback against the administrators of the incident's chat.
  pub Triple-is_authorized :
      p.operators ≡ env.operators
      → Triple {R = R}
          (holds p 0 false false)
          (λ o. holds p 0 (granted o) false)
          E
          (is_authorized env p.chat p.user)
  unfolding is_authorized
  Triple-is_authorized e =
      Triple-when (λ o. holds p 0 (granted o) false) (any (λ a. same a p.user) env.operators) _ _
        (λ h.
          Triple-pure (λ o. holds p 0 (granted o) false) (some true)
            (λ es g.
              let k : any (λ a. same a p.user) p.operators ≡ true = rw e h in ground (arith, g, k)))
        (λ h.
          Triple-bind (λ r. holds p 0 (names p.user r) false) (λ o. holds p 0 (granted o) false) _ _
            (Triple-get_administrators (λ r. holds p 0 (names p.user r) false) env p.chat
              (named_admin p))
            Triple-authorized_by)
