-- ===== src/Controller/App.antt =====
-- The application of QApplicationWindowController.cpp as a whole: its state, its window and the fields that
-- a search reads, under the calls of the receiver and of the toolkit, one after the other.
pub mod Invariant
use aleakd.Base.{ℕ, List, [], ◌∷◌}
use aleakd.Controller.State.{Controller}
use aleakd.Controller.Events.{Event, handle}
use aleakd.Controller.Form.{Form, search, on_thread_infos_double_clicked}
use aleakd.Controller.Update.{on_timer_update}
use aleakd.View.Qt.{Qt}
use aleakd.View.Window.{Window}

pub record App : Type 0 where
  pub controller : Controller
  pub window : Window
  pub form : Form

-- A message that arrives, the user's change of the fields, the click on the filter button, the double
-- click on a thread, and the timer.
pub data Action : Type 0 where
  received : Event → Action
  edited : Form → Action
  filter_clicked : Action
  thread_double_clicked : ℕ → Action
  timer_elapsed : Action

unfoldable pub act : Qt → Action → App → App
unfolding handle search on_thread_infos_double_clicked on_timer_update
act q (received e) a = record a { controller = handle e a.controller }
act q (edited f) a = record a { form = f }
act q filter_clicked a = record a { controller = search q a.form a.controller }
act q (thread_double_clicked row) a = record a {
  form = on_thread_infos_double_clicked q row a.controller a.form;
}
act q timer_elapsed a =
    let (c, w) = on_timer_update q (a.controller, a.window) in
    record a { controller = c; window = w }

unfoldable pub run_app : Qt → List Action → App → App
unfolding act
run_app q [] a = a
run_app q (action ∷ actions) a = run_app q actions (act q action a)
