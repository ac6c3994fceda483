-- ===== src/Web/Vantage/Views.antt =====
-- store.ts: which view is shown, and the tour of the first run. What follows a delay is a function
-- of its own, for the time when the delay is over.
use apply_agent.Prelude.{ℕ, ◌+◌, String, Bool, true, false, Option, none, some, leb, if◌then◌else◌}

pub data Screen : Type 0 where
  onboarding app review extension builder mock : Screen

pub data Nav : Type 0 where
  chat today apps settings : Nav

-- `tour_step` is `none` for -1; `tour_done` says whether localStorage holds that the tour is over.
pub record Views : Type 0 where
  pub screen : Screen
  pub nav : Nav
  pub active_id : String
  pub prep_id : Option ℕ
  pub e_filled : Bool
  pub tour_step : Option ℕ
  pub tour_done : Bool

abbrev pub first_views : (tour_done : Bool) → Views
first_views tour_done = record {
  screen = onboarding;
  nav = chat;
  active_id = "linear";
  prep_id = none;
  e_filled = false;
  tour_step = none;
  tour_done = tour_done;
}

abbrev pub set_screen : Screen → Views → Views
set_screen screen v = record v { screen = screen }

abbrev pub set_nav : Nav → Views → Views
set_nav nav v = record v { nav = nav }

unfoldable pub start_tour : Views → Views
start_tour v = if v.tour_done then v else record v { tour_step = some 0 }

unfoldable pub end_tour : Views → Views
end_tour v = record v { tour_done = true; tour_step = none }

-- `nextTourStep`: the step after -1 is 0.
unfoldable pub next_tour_step : Views → Views
next_tour_step v = elim v.tour_step [
  | none ↦ record v { tour_step = some 0 }
  | some cur ↦ if leb 2 cur then end_tour v else record v { tour_step = some (cur + 1) }
]

-- `goChat`, `goToday`, `goTracker`, `goSettings`; `goInterviews` is `go_to apps` and then
-- `open_prep 0` after 60 ms.
abbrev pub go_to : Nav → Views → Views
go_to nav v = record v { screen = app; nav = nav }

abbrev pub open_review : String → Views → Views
open_review id v = record v { screen = review; active_id = id }

-- `backHome` and `closeExt`
abbrev pub back_home : Views → Views
back_home v = record v { screen = app; nav = today }

abbrev pub open_extension : String → Views → Views
open_extension id v = record v { screen = extension; active_id = id; e_filled = false }

-- 1300 ms after `openExtension`
abbrev pub extension_filled : Views → Views
extension_filled v = record v { e_filled = true }

abbrev pub open_prep : ℕ → Views → Views
open_prep i v = record v { prep_id = some i }

abbrev pub close_prep : Views → Views
close_prep v = record v { prep_id = none }
