-- ===== src/Admin/Callbacks/Kept.antt =====
-- internal/admin/callbacks.go: what the parts of dispatch leave true of the events of a press.
use telegram_antispam.Common.{ℕ, String, Bool, true, false, not, List, Option, none, some, arith}
use telegram_antispam.Store.Incidents.{IncidentRow}
use telegram_antispam.Incident.World.{Effect}
use telegram_antispam.Admin.World.{
  Button, false_positive, lift_no_learn, confirm_spam, delete_evidence, enforce, Event,
  edit_admin_markup, Env, enforce_incident,
}
use telegram_antispam.Admin.Callbacks.{
  Callback, release_claim, mark_stale, or_fail, refuse, or_release, release_unless_delete,
  check_card, or_hand_back, release_if_marked, enforced_part, act_on, is_delete,
}
use telegram_antispam.Admin.Guard.{
  Press, holds, Steady, Steady-then, Steady-pure, Steady-call, Steady-enforce_incident,
  steady_rules,
}
use telegram_antispam.Admin.Effects.Guarded.{
  Steady-undo, Steady-train, Steady-record_confirmation, Steady-delete_evidence_of,
}

module _ (env : Env) (presser : Press) where
  pub Steady-release_claim :
      {R : Type 0} {P : List Event → Bool} (id : ℕ) (act : Button)
      → Steady {R = R} P (release_claim env id act)
  unfolding release_claim
  Steady-release_claim id act = search steady_rules

  pub Steady-mark_stale :
      {R : Type 0} (c : Bool) (cb : Callback)
      → Steady {R = R} (holds presser 0 true c) (mark_stale env cb)
  unfolding mark_stale
  Steady-mark_stale c cb =
      Steady-then _ _
        (Steady-call env (edit_admin_markup cb.admin_chat_id cb.message_id)
          (λ r es h. ground (arith, h)))
        (Steady-pure _)

  pub Steady-or_fail :
      {A : Type 0} {P : List Event → Bool} (o : Option A) → Steady P (or_fail env o)
  unfolding or_fail
  Steady-or_fail none = search steady_rules
  Steady-or_fail (some a) = Steady-pure a

  pub Steady-refuse :
      (cb : Callback) (id : ℕ) (d : String)
      → Steady (holds presser 0 true false) (refuse env cb id d)
  unfolding refuse
  Steady-refuse cb id d = search (steady_rules, Steady-or_fail, Steady-mark_stale) depth 10

  pub Steady-or_release :
      {P : List Event → Bool} (id : ℕ) (act : Button) (o : Option (Option IncidentRow))
      → Steady P (or_release env id act o)
  unfolding or_release
  Steady-or_release id act none = search (steady_rules, Steady-release_claim)
  Steady-or_release id act (some none) = search (steady_rules, Steady-release_claim)
  Steady-or_release id act (some (some row)) = Steady-pure row

  pub Steady-release_unless_delete :
      {P : List Event → Bool} (act : Button) (id : ℕ) → Steady P (release_unless_delete env act id)
  unfolding release_unless_delete
  Steady-release_unless_delete act id = search (steady_rules, Steady-release_claim)

  pub Steady-check_card :
      (c : Bool) (act : Button) (cb : Callback) (id : ℕ) (o : Option Bool)
      → Steady (holds presser 0 true c) (check_card env act cb id o)
  unfolding check_card
  Steady-check_card c act cb id none = search (steady_rules, Steady-release_unless_delete)
  Steady-check_card c act cb id (some true) = search steady_rules
  Steady-check_card c act cb id (some false) =
      search (steady_rules, Steady-release_claim, Steady-mark_stale)

  pub Steady-or_hand_back :
      {A : Type 0} {P : List Event → Bool} (id : ℕ) (act : Button) (o : Option A)
      → Steady P (or_hand_back env id act o)
  unfolding or_hand_back
  Steady-or_hand_back id act none = search (steady_rules, Steady-release_claim)
  Steady-or_hand_back id act (some a) = Steady-pure a

  pub Steady-release_if_marked :
      {P : List Event → Bool} (id : ℕ) (o : Option (Option IncidentRow))
      → Steady P (release_if_marked env id o)
  unfolding release_if_marked
  Steady-release_if_marked id none = search steady_rules
  Steady-release_if_marked id (some none) = search steady_rules
  Steady-release_if_marked id (some (some row)) = search (steady_rules, Steady-release_claim)

  pub Steady-enforced_part :
      (inc : IncidentRow) (e : Effect)
      → Steady (holds presser 0 true true) (enforced_part env inc e)
  unfolding enforced_part
  Steady-enforced_part inc e =
      search
        (steady_rules, Steady-release_claim, Steady-release_if_marked, Steady-train env presser 0)
        depth 12

  pub Steady-enforce_guarded :
      {R : Type 0} (inc : IncidentRow)
      → Steady {R = R} (holds presser 0 true true) (enforce_incident env inc)
  Steady-enforce_guarded inc = Steady-enforce_incident env inc (λ e es h. ground (arith, h))

  -- A decision, by its button.
  pub Steady-act_on :
      (act : Button) (inc : IncidentRow) (cb : Callback)
      → Steady (holds presser 0 true (not (is_delete act))) (act_on env act inc cb)
  unfolding act_on
  Steady-act_on false_positive inc cb =
      search
        (steady_rules, Steady-undo env presser 0, Steady-or_hand_back, Steady-train env presser 0)
        depth 12
  Steady-act_on confirm_spam inc cb =
      search (steady_rules, Steady-record_confirmation env presser 0, Steady-or_hand_back)
  Steady-act_on lift_no_learn inc cb =
      search (steady_rules, Steady-undo env presser 0, Steady-or_hand_back) depth 10
  Steady-act_on enforce inc cb =
      search (steady_rules, Steady-release_claim, Steady-enforce_guarded, Steady-enforced_part)
  Steady-act_on delete_evidence inc cb =
      search (steady_rules, Steady-delete_evidence_of env presser 0, Steady-or_fail)
