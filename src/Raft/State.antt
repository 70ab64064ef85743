-- ===== src/Raft/State.antt =====
-- internal/consensus/state/state.go and the roles of internal/consensus/core/models.go. Times are in
-- milliseconds; the clock and the random draw are arguments.
use not_ahivemind.Base.{ℕ, ◌+◌, ◌-◌, Bool, true, false, [], ltb, if◌then◌else◌, Text}

pub data Role : Type 0 where
  follower candidate leader : Role

abbrev pub is_leader : Role → Bool
is_leader leader = true
is_leader candidate = false
is_leader follower = false

-- `time.Now()` and the result of `rand.Intn(150)`.
pub record Moment : Type 0 where
  pub now : ℕ
  pub draw : ℕ

pub record State : Type 0 where
  pub id : Text
  pub address : Text
  pub leader_id : Text
  pub role : Role
  pub connected : Bool
  pub last_contact : ℕ
  pub election_timeout : ℕ
  pub current_term : ℕ
  pub voted_for : Text

unfoldable pub reset_election_timer : Moment → State → State
reset_election_timer t s = record s { last_contact = t.now; election_timeout = t.draw + 150 }

unfoldable pub become_follower : Moment → State → State
unfolding reset_election_timer
become_follower t s = reset_election_timer t (record s { role = follower; leader_id = [] })

unfoldable pub become_candidate : Moment → State → State
unfolding reset_election_timer
become_candidate t s = reset_election_timer t (record s { role = candidate; leader_id = [] })

unfoldable pub become_leader : State → State
become_leader s = record s { role = leader; election_timeout = 0 }

unfoldable pub update_leader : Text → State → State
update_leader leader_id s = record s { leader_id = leader_id }

unfoldable pub record_contact : Moment → State → State
record_contact t s = record s { last_contact = t.now }

-- `time.Since(s.LastContact)`.
unfoldable pub time_since_last_contact : Moment → State → ℕ
time_since_last_contact t s = t.now - s.last_contact

-- A leader waits for nobody.
unfoldable pub is_election_timeout : Moment → State → Bool
unfolding time_since_last_contact
is_election_timeout t s =
    if is_leader s.role then false else ltb s.election_timeout (time_since_last_contact t s)

unfoldable pub set_connected : State → State
set_connected s = record s { connected = true }

unfoldable pub set_disconnected : State → State
set_disconnected s = record s { connected = false }

unfoldable pub set_current_term : ℕ → State → State
set_current_term term s = record s { current_term = term }

unfoldable pub set_voted_for : Text → State → State
set_voted_for candidate_id s = record s { voted_for = candidate_id }

-- `New`.
unfoldable pub new : Text → Text → Moment → State
unfolding reset_election_timer record_contact become_follower set_disconnected
new id address t = set_disconnected (
    become_follower t (
      record_contact t (
        reset_election_timer t (record {
          id = id;
          address = address;
          leader_id = [];
          role = follower;
          connected = false;
          last_contact = 0;
          election_timeout = 0;
          current_term = 0;
          voted_for = [];
        }))))
