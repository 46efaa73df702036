-- ===== src/Incident/Machine/Process/Evidence.antt =====
-- Evidence comes before any destructive call, and a report that is held back makes none.
use telegram_antispam.Common.{
  ℕ, ℤ, String, Bool, true, false, same_refl, List, [], ◌∷◌, ◌++◌, Option, none, some, refl, ◌≡◌,
  ◌∙◌, sym, arith, is_some,
}
use mathlib.Core.List.{append_assoc}
use telegram_antispam.Domain.{Incident}
use telegram_antispam.Incident.World.{
  Result, ok, err, CopyError, CardError, Call, Env, World, M, ◌>>=◌,
}
use telegram_antispam.Incident.Trace.{
  Adds, Adds-bind, same_ids_refl, harmless, harmless-append, aimed, aimed-append, aimed_of_harmless,
  evidence_first, evidence_first-append_aimed, evidence_first-append_harmless,
  evidence_first_of_harmless,
}
use telegram_antispam.Incident.Machine.{Machine, Error, acts_without_evidence}
use telegram_antispam.Incident.Machine.Calls.{Quiet-save_album, Quiet-save_tokens, Quiet-chat_title}
use telegram_antispam.Incident.Machine.Process.Calls.{Quiet-notify, Aimed-act_unless}
use telegram_antispam.Incident.Machine.Port.{copy_messages, chat_title}
use telegram_antispam.Incident.Machine.Process.{
  Report, after_bare_card, notify_without_evidence, notify, title_or_empty, act_unless, process,
}

module _ (env : Env) (m : Machine) where
  -- A verdict of the bot's own judgement always stops where there is no evidence.
  after_bare_card-stops :
      (id : ℕ) (e : CopyError) (sent : Option CardError) (w : World)
      → is_some (after_bare_card env m id e false sent w).0 ≡ true
  unfolding after_bare_card
  after_bare_card-stops id e none w = refl
  after_bare_card-stops id e (some c) w = refl

  notify_without_evidence-stops :
      (id : ℕ) (inc : Incident) (title : String) (e : CopyError) (w : World)
      → acts_without_evidence inc.verdict ≡ false
      → is_some (notify_without_evidence env m id inc title e w).0 ≡ true
  unfolding notify_without_evidence
  notify_without_evidence-stops id inc title e w h = rw h (after_bare_card-stops id e _ _)

  abbrev has_copies : Result (List ℤ) → Bool
  has_copies (ok (c ∷ cs)) = true
  has_copies _ = false

  notify-stops :
      (id : ℕ) (inc : Incident) (copies : Result (List ℤ)) (title : String) (w : World)
      → acts_without_evidence inc.verdict ≡ false
      → has_copies copies ≡ false
      → is_some (notify env m id inc copies title w).0 ≡ true
  unfolding notify
  notify-stops id inc (ok (c ∷ cs)) title w h k = cc
  notify-stops id inc (ok []) title w h k = notify_without_evidence-stops id inc title _ w h
  notify-stops id inc (err e) title w h k = notify_without_evidence-stops id inc title _ w h

  abbrev rest_of : ℕ → Incident → Result (List ℤ) → Result String → M Report
  rest_of id inc copies title =
      notify env m id inc copies (title_or_empty title) >>= act_unless env m id inc

  -- What follows the copy: calls on the incident's own chat and messages, and harmless ones only
  -- where nothing was copied.
  abbrev Follows : Incident → Result (List ℤ) → List Call → Type 0
  Follows inc copies xs =
      (aimed m.admin_chat_id inc.chat_id inc.message_ids xs ≡ true)
      × (has_copies copies ≡ false → harmless m.admin_chat_id xs ≡ true)

  notify-Follows :
      (id : ℕ) (inc : Incident) (copies : Result (List ℤ)) (title : String)
      → acts_without_evidence inc.verdict ≡ false
      → Adds
          (λ o xs.
            (harmless m.admin_chat_id xs ≡ true) × (has_copies copies ≡ false → is_some o ≡ true))
          (notify env m id inc copies title)
  notify-Follows id inc copies title h = record {
    run = λ w.
        let (xs, e, p) = (Quiet-notify env m id inc copies title).adds.run w in
        (xs, e, (p, notify-stops id inc copies title w h));
  }

  act_unless-Follows :
      (id : ℕ) (inc : Incident) (o : Option Error)
      → Adds
          (λ _ xs.
            (aimed m.admin_chat_id inc.chat_id inc.message_ids xs ≡ true)
            × (is_some o ≡ true → harmless m.admin_chat_id xs ≡ true))
          (act_unless env m id inc o)
  act_unless-Follows id inc none = record {
    run = λ w.
        let (xs, e, p) = (Aimed-act_unless env m id inc none).adds.run w in (xs, e, (p, λ q. cc));
  }
  act_unless-Follows id inc (some x) = record { run = λ w. ([], refl, (refl, λ q. refl)) }

  rest_of-Follows :
      (id : ℕ) (inc : Incident) (copies : Result (List ℤ)) (title : Result String)
      → acts_without_evidence inc.verdict ≡ false
      → Adds (λ _ xs. Follows inc copies xs) (rest_of id inc copies title)
  rest_of-Follows id inc copies title h =
      Adds-bind _ _ (notify-Follows id inc copies _ h) (act_unless-Follows id inc) λ o b xs ys p q.
        (
          aimed-append m.admin_chat_id inc.chat_id inc.message_ids xs ys
              (aimed_of_harmless m.admin_chat_id inc.chat_id inc.message_ids ys p.0) q.0,
          λ e. harmless-append m.admin_chat_id xs ys p.0 (q.1 (p.1 e)),
        )

  titled-Follows :
      (id : ℕ) (inc : Incident) (copies : Result (List ℤ))
      → acts_without_evidence inc.verdict ≡ false
      → Adds (λ _ xs. Follows inc copies xs) (chat_title env inc.chat_id >>= rest_of id inc copies)
  titled-Follows id inc copies h =
      Adds-bind _ _ (Quiet-chat_title env m.admin_chat_id inc.chat_id).adds
        (λ title. rest_of-Follows id inc copies title h)
        λ a b xs ys p q. (
          aimed-append m.admin_chat_id inc.chat_id inc.message_ids xs ys
              (aimed_of_harmless m.admin_chat_id inc.chat_id inc.message_ids ys p) q.0,
          λ e. harmless-append m.admin_chat_id xs ys p (q.1 e),
        )

  abbrev copy_call : Incident → Result (List ℤ) → Call
  copy_call inc r = Call.copy_messages m.admin_chat_id inc.chat_id inc.message_ids r

  after_copy-evidence_first :
      (inc : Incident) (r : Result (List ℤ)) (xs : List Call)
      → Follows inc r xs
      → evidence_first m.admin_chat_id inc.chat_id inc.message_ids (xs ++ copy_call inc r ∷ [])
        ≡ true
  after_copy-evidence_first inc (ok (c ∷ cs)) xs f =
      evidence_first-append_aimed m.admin_chat_id inc.chat_id inc.message_ids xs _
        (ground
          (arith, same_refl m.admin_chat_id, same_refl inc.chat_id, same_ids_refl inc.message_ids))
        refl f.0
  after_copy-evidence_first inc (ok []) xs f =
      evidence_first-append_harmless m.admin_chat_id inc.chat_id inc.message_ids xs _ refl
        (evidence_first_of_harmless m.admin_chat_id inc.chat_id inc.message_ids xs (f.1 refl))
  after_copy-evidence_first inc (err e) xs f =
      evidence_first-append_harmless m.admin_chat_id inc.chat_id inc.message_ids xs _ refl
        (evidence_first_of_harmless m.admin_chat_id inc.chat_id inc.message_ids xs (f.1 refl))

  copied-evidence_first :
      (id : ℕ) (inc : Incident)
      → acts_without_evidence inc.verdict ≡ false
      → Adds
          (λ _ xs. evidence_first m.admin_chat_id inc.chat_id inc.message_ids xs ≡ true)
          (copy_messages env m.admin_chat_id inc.chat_id inc.message_ids >>= λ copies.
            chat_title env inc.chat_id >>= rest_of id inc copies)
  unfolding copy_messages
  copied-evidence_first id inc h = record {
    run = λ w.
        let r = env.copy_messages w.calls m.admin_chat_id inc.chat_id inc.message_ids in
        let w' = (copy_messages env m.admin_chat_id inc.chat_id inc.message_ids w).1 in
        let (xs, e, f) = (titled-Follows id inc r h).run w' in
        (
          xs ++ copy_call inc r ∷ [],
          e ∙ sym (append_assoc xs (copy_call inc r ∷ []) w.calls),
          after_copy-evidence_first inc r xs f,
        );
  }

  -- process on a verdict of the bot's own judgement (no signal of a blocklist or of a moderator's
  -- command), whatever Telegram answers and whichever writes to the database fail: among the calls
  -- that it makes, each ban, mute, ban of a sender chat, and deletion outside the admin chat acts
  -- on the incident's chat, a deletion on just its messages, and comes after a copy of these
  -- messages into the admin chat that made at least one copy.
  pub process-evidence_first :
      (id : ℕ) (inc : Incident)
      → acts_without_evidence inc.verdict ≡ false
      → Adds
          (λ _ xs. evidence_first m.admin_chat_id inc.chat_id inc.message_ids xs ≡ true)
          (process env m id inc)
  unfolding process
  process-evidence_first id inc h =
      Adds-bind _ _ (Quiet-save_album env m id inc).adds
        (λ _.
          Adds-bind _ _ (Quiet-save_tokens env m id inc).adds (λ _. copied-evidence_first id inc h)
            (λ a b xs ys p q.
              evidence_first-append_harmless m.admin_chat_id inc.chat_id inc.message_ids xs ys p q))
        λ a b xs ys p q.
          evidence_first-append_harmless m.admin_chat_id inc.chat_id inc.message_ids xs ys p q
