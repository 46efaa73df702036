-- ===== src/Watch/Captcha/Activity.antt =====
-- internal/watch: all that the captcha does, in any order: its handlers, the functions given to
-- Captcha.Go and the sweeps. What runs at the same time is in the environment of each.
use telegram_antispam.Common.{ℕ, ℤ, true, List, [], ◌∷◌, ◌≡◌}
use telegram_antispam.Store.MessageIds.{Text}
use telegram_antispam.Store.Captcha.{get_captcha}
use telegram_antispam.Store.Captcha.Keys.{Distinct}
use telegram_antispam.Store.Captcha.Life.{all_forward, Advances}
use telegram_antispam.Watch.World.{Env, World, JoinEvent, JoinRequest, Task}
use telegram_antispam.Watch.Captcha.Join.{on_join, on_join_request, MemberChange, on_member_change}
use telegram_antispam.Watch.Captcha.Press.{CaptchaPress, on_press}
use telegram_antispam.Watch.Captcha.Challenge.{run_task}
use telegram_antispam.Watch.Captcha.Sweep.{sweep}
use telegram_antispam.Watch.Captcha.Join.Sound.{
  Sound-on_join, Sound-on_join_request, Sound-on_member_change,
}
use telegram_antispam.Watch.Captcha.Press.Sound.{Sound-on_press}
use telegram_antispam.Watch.Captcha.Challenge.Sound.{Sound-run_task}
use telegram_antispam.Watch.Captcha.Sweep.Sound.{Sound-sweep}
use telegram_antispam.Watch.Sound.{Keeps, Keeps_refl, Keeps_trans}

pub data Activity : Type 0 where
  join : JoinEvent → Text → Activity
  request : JoinRequest → Activity
  change : MemberChange → Activity
  press : CaptchaPress → Activity
  task : Task → Activity
  sweeping : Activity

-- The world after an activity, in its own environment.
abbrev pub act : Env → Activity → World → World
act env (join ev name) w = (on_join env ev name w).1
act env (request r) w = (on_join_request env r w).1
act env (change ch) w = (on_member_change env ch w).1
act env (press p) w = (on_press env {R = Unit {0}} p w).1
act env (task t) w = (run_task env {R = Unit {0}} t w).1
act env sweeping w = (sweep env w).1

unfoldable pub act_all : Env → List Activity → World → World
act_all env [] w = w
act_all env (a ∷ as') w = act_all env as' (act env a w)

module _ (env : Env) (honest : (n : ℕ) → all_forward (env.others n) ≡ true) where
  act_keeps : (a : Activity) (w : World) → Keeps w (act env a w)
  act_keeps (join ev name) w = (Sound-on_join env honest ev name).run w
  act_keeps (request r) w = (Sound-on_join_request env honest r).run w
  act_keeps (change ch) w = (Sound-on_member_change env honest ch).run w
  act_keeps (press p) w = (Sound-on_press env honest p).run w
  act_keeps (task t) w = (Sound-run_task env honest t).run w
  act_keeps sweeping w = (Sound-sweep env honest).run w

  act_all_keeps : (as' : List Activity) (w : World) → Keeps w (act_all env as' w)
  unfolding act_all
  act_all_keeps [] w = Keeps_refl w
  act_all_keeps (a ∷ as') w =
      Keeps_trans w (act env a w) (act_all env as' (act env a w)) (act_keeps a w)
        (act_all_keeps as' (act env a w))

  -- Whatever the captcha does, and whatever forward operations other goroutines make in between, what is
  -- recorded of a member only advances, and nobody gets a second row.
  pub act_all-Advances :
      (as' : List Activity) (w : World) (chat user : ℤ)
      → Distinct w.table
      → Advances (get_captcha chat user w.table) (get_captcha chat user (act_all env as' w).table)
        × Distinct (act_all env as' w).table
  act_all-Advances as' w chat user d =
      let k = act_all_keeps as' w in (k.advances chat user, k.distinct d)
