-- ===== src/Admin/Callbacks/Claimed.antt =====
-- internal/admin/callbacks.go: the claim in dispatch, and what follows it.
use telegram_antispam.Common.{
  ◌∷◌, if◌then◌else◌, ℕ, ◌==◌, String, Bool, true, false, List, Option, none, some, ◌≡◌, arith,
}
use telegram_antispam.Store.Incidents.{IncidentRow, is_incident_card, get_incident}
use telegram_antispam.Admin.World.{
  decision_recorded, Reply, not_authorized, Button, false_positive, lift_no_learn, confirm_spam,
  delete_evidence, enforce, Event, answer_callback, Env, ◌>>=◌, ◌>>◌, transact,
}
use telegram_antispam.Admin.Callbacks.{
  Callback, HandleError, or_fail, refuse, or_release, claim, check_card, act_on, dispatch, answer,
  or_answer, reply_to, by_rights, card_of,
}
use telegram_antispam.Admin.Parse.{button_text}
use telegram_antispam.Admin.Guard.{
  Press, took, Triple-record_claim, holds, Steady, Steady-transact, steady_rules, Triple,
  Triple-pure, Triple-exit, Triple-if, Triple-Steady, Triple-bind, Triple-enter, Triple-weaken,
  Triple-call,
}
use telegram_antispam.Admin.Effects.Guarded.{granted}
use telegram_antispam.Admin.Callbacks.Kept.{
  Steady-mark_stale, Steady-or_fail, Steady-or_release, Steady-check_card, Steady-act_on,
}

module _ (env : Env) (presser : Press) where
  pub drop_claim :
      (n : ℕ) (c : Bool) (es : List Event)
      → holds presser n true c es ≡ true
      → holds presser n true false es ≡ true
  drop_claim n c es h = ground (arith, h)

  -- A press that is refused returns.
  pub Triple-refuse :
      (Q : List Event → Bool) (cb : Callback) (id : ℕ) (d : String)
      → Triple
          (holds presser 0 true false)
          (λ _. Q)
          (holds presser 0 true false)
          (refuse env cb id d)
  unfolding refuse
  Triple-refuse Q cb id d =
      Triple-if (λ _. Q) _ _ _ (Triple-exit (λ _. Q) _ (λ es h. h))
        (Triple-bind (λ _. holds presser 0 true false) (λ _. Q) _ _
          (Triple-Steady _ (Steady-transact env _) (λ es h. h))
          (λ answer.
            Triple-bind (λ _. holds presser 0 true false) (λ _. Q) _ _
              (Triple-Steady _ (Steady-or_fail env presser answer) (λ es h. h))
              (λ current.
                Triple-if (λ _. Q) _ _ _ (Triple-exit (λ _. Q) _ (λ es h. h))
                  (Triple-bind (λ _. holds presser 0 true false) (λ _. Q) _ _
                    (Triple-Steady _ (Steady-mark_stale env presser false cb) (λ es h. h))
                    (λ r. Triple-exit (λ _. Q) _ (λ es h. h))))))

  pub Triple-or_fail :
      {A : Type 0} (g : Option A → Bool) (o : Option A)
      → Triple
          (holds presser 0 true (g o))
          (λ a. holds presser 0 true (g (some a)))
          (holds presser 0 true false)
          (or_fail env o)
  unfolding or_fail
  Triple-or_fail g none =
      Triple-exit (λ a. holds presser 0 true (g (some a))) _ (drop_claim 0 (g none))
  Triple-or_fail g (some a) = Triple-pure (λ a. holds presser 0 true (g (some a))) a (λ es h. h)

  -- The claim of the decision on the incident of the press.
  recorded_holds :
      (id : ℕ) (d : String) (a : Option (Option (Bool × String))) (es : List Event)
      → (id == presser.id) ≡ true
      → holds presser 0 true false es ≡ true
      → holds presser 0 true (took a) (decision_recorded id d a ∷ es) ≡ true
  recorded_holds id d a es e h = ground (arith, e, h)

  pub Triple-fresh :
      (act : Button) (id : ℕ)
      → Triple
          (holds presser 0 true true)
          (λ _. holds presser 0 true true)
          (holds presser 0 true false)
          (transact env (λ db. (db, get_incident id db)) >>= or_release env id act)
  Triple-fresh act id =
      let A2 = holds presser 0 true true in
      Triple-bind (λ _. A2) (λ _. A2) _ _
        (Triple-Steady _ (Steady-transact env _) (drop_claim 0 true))
        (λ fresh. Triple-Steady _ (Steady-or_release env presser id act fresh) (drop_claim 0 true))

  pub Triple-taken :
      (act : Button) (cb : Callback) (id : ℕ) (r : Bool × String)
      → Triple
          (holds presser 0 true (took (some (some r))))
          (λ _. holds presser 0 true true)
          (holds presser 0 true false)
          (if r.0
            then transact env (λ db. (db, get_incident id db)) >>= or_release env id act
            else refuse env cb id r.1)
  Triple-taken act cb id (true, d) = Triple-fresh act id
  Triple-taken act cb id (false, d) = Triple-refuse (holds presser 0 true true) cb id d

  pub Triple-claim :
      (act : Button) (cb : Callback) (id : ℕ)
      → (id == presser.id) ≡ true
      → Triple
          (holds presser 0 true false)
          (λ _. holds presser 0 true true)
          (holds presser 0 true false)
          (claim env act cb id)
  unfolding claim
  Triple-claim act cb id e =
      let A2 = holds presser 0 true true in
      Triple-bind (λ a. holds presser 0 true (took a)) (λ _. A2) _ _
        (Triple-record_claim (λ a. holds presser 0 true (took a)) env id (button_text act)
          (λ a es. recorded_holds id (button_text act) a es e))
        (λ answer.
          Triple-bind (λ a. holds presser 0 true (took (some a))) (λ _. A2) _ _
            (Triple-or_fail took answer)
            (λ found.
              Triple-bind (λ r. holds presser 0 true (took (some (some r)))) (λ _. A2) _ _
                (Triple-or_fail (λ o. took (some o)) found) (Triple-taken act cb id)))

  -- What follows the claim.
  pub Steady-after_claim :
      (c : Bool) (act : Button) (cb : Callback) (inc : IncidentRow)
      → Steady (holds presser 0 true c) (act_on env act inc cb)
      → Steady (holds presser 0 true c) (
          transact env (λ db. (db, is_incident_card inc.id (card_of cb) db)) >>= λ current.
          check_card env act cb inc.id current >> act_on env act inc cb)
  Steady-after_claim c act cb inc h = search (steady_rules, Steady-check_card)

  pub Triple-decide :
      (act : Button) (cb : Callback) (id : ℕ)
      → (id == presser.id) ≡ true
      → ((inc : IncidentRow) → Steady (holds presser 0 true true) (act_on env act inc cb))
      → Triple
          (holds presser 0 true false)
          (λ _. holds presser 0 true false)
          (holds presser 0 true false)
          (claim env act cb id >>= λ inc.
            transact env (λ db. (db, is_incident_card inc.id (card_of cb) db)) >>= λ current.
            check_card env act cb inc.id current >> act_on env act inc cb)
  Triple-decide act cb id e h =
      Triple-bind (λ _. holds presser 0 true true) (λ _. holds presser 0 true false) _ _
        (Triple-claim act cb id e)
        (λ inc.
          Triple-weaken (λ _. holds presser 0 true true) (λ _. holds presser 0 true false) _
            (Triple-Steady _ (Steady-after_claim true act cb inc (h inc)) (drop_claim 0 true))
            (λ es p. p) (λ a. drop_claim 0 true))

  pub Triple-dispatch :
      (act : Button) (inc : IncidentRow) (cb : Callback)
      → (inc.id == presser.id) ≡ true
      → Triple
          (holds presser 0 true false)
          (λ _. holds presser 0 true false)
          (holds presser 0 true false)
          (dispatch env act inc cb)
  unfolding dispatch
  Triple-dispatch false_positive inc cb e =
      Triple-decide false_positive cb inc.id e (λ i. Steady-act_on env presser false_positive i cb)
  Triple-dispatch lift_no_learn inc cb e =
      Triple-decide lift_no_learn cb inc.id e (λ i. Steady-act_on env presser lift_no_learn i cb)
  Triple-dispatch confirm_spam inc cb e =
      Triple-decide confirm_spam cb inc.id e (λ i. Steady-act_on env presser confirm_spam i cb)
  Triple-dispatch enforce inc cb e =
      Triple-decide enforce cb inc.id e (λ i. Steady-act_on env presser enforce i cb)
  Triple-dispatch delete_evidence inc cb e =
      Triple-Steady _
        (Steady-after_claim false delete_evidence cb inc
          (Steady-act_on env presser delete_evidence inc cb))
        (λ es h. h)

  pub Triple-answer :
      (a : Bool) (cb : Callback) (reply : Reply) (e : Option HandleError)
      → Triple
          (holds presser 0 a false)
          (λ _. holds presser 1 false false)
          (holds presser 1 false false)
          (answer env cb reply e)
  unfolding answer
  Triple-answer a cb reply e =
      Triple-bind (λ _. holds presser 1 false false) (λ _. holds presser 1 false false) _ _
        (Triple-call (holds presser 1 false false) env (answer_callback cb.id reply)
          (λ r es h. ground (arith, h)))
        (λ _. Triple-pure (λ _. holds presser 1 false false) e (λ es h. h))

  pub Triple-or_answer :
      {A : Type 0} (g : Option A → Bool) (cb : Callback) (reply : Reply) (e : Option HandleError)
      (o : Option A)
      → Triple
          (holds presser 0 (g o) false)
          (λ a. holds presser 0 (g (some a)) false)
          (holds presser 1 false false)
          (or_answer env cb reply e o)
  unfolding answer
  Triple-or_answer g cb reply e none =
      Triple-bind (λ _. holds presser 1 false false) (λ a. holds presser 0 (g (some a)) false) _ _
        (Triple-answer (g none) cb reply e)
        (λ r. Triple-exit (λ a. holds presser 0 (g (some a)) false) r (λ es h. h))
  Triple-or_answer g cb reply e (some a) =
      Triple-pure (λ a. holds presser 0 (g (some a)) false) a (λ es h. h)

  pub Triple-reply_to :
      (cb : Callback) (o : Option Reply)
      → Triple
          (holds presser 0 true false)
          (λ _. holds presser 1 false false)
          (holds presser 1 false false)
          (reply_to env cb o)
  unfolding reply_to
  Triple-reply_to cb none = Triple-answer true cb _ _
  Triple-reply_to cb (some r) = Triple-answer true cb r none

  pub Triple-by_rights :
      (cb : Callback) (act : Button) (inc : IncidentRow) (allowed : Bool)
      → (inc.id == presser.id) ≡ true
      → Triple
          (holds presser 0 (granted (some allowed)) false)
          (λ _. holds presser 1 false false)
          (holds presser 1 false false)
          (by_rights env cb act inc allowed)
  unfolding by_rights
  Triple-by_rights cb act inc false e = Triple-answer false cb not_authorized none
  Triple-by_rights cb act inc true e =
      Triple-bind (λ _. holds presser 0 true false) (λ _. holds presser 1 false false) _ _
        (Triple-enter (holds presser 0 true false) (holds presser 0 true false)
          (dispatch env act inc cb) (Triple-dispatch act inc cb e))
        (λ o. Triple-reply_to cb o)
