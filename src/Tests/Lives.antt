-- ===== src/Tests/Lives.antt =====
-- The lives of two agents: in one run the first is closed, in the other it is kicked out.
use tcp_gateway.Prelude.{◌+◌, ◌≡◌, refl, true, [], ◌∷◌}
use tcp_gateway.Agent.Life.{
  World, set_disable, start, accept, cancel, fresh, clean_up, set, begin_finalizer, test_disable,
  mark, notify_disconnect, Reach, begin, next, accepting, cancelling, beginning, testing, marking,
  ending, disabling,
}
use tcp_gateway.Agent.Life.Kick.{Later, here, step, Later-sent}
use tcp_gateway.Agent.Life.Count.{running, sent, Reach-running}

abbrev two_agents : World
two_agents = accept (accept start)

abbrev closed : World
closed = record two_agents { agents = set 0 (cancel fresh) two_agents.agents }

abbrev taken_down : World
taken_down = begin_finalizer 0 (cancel fresh) closed

abbrev tested : World
tested = record taken_down {
  agents = set 0 (test_disable (clean_up (cancel fresh))) taken_down.agents;
}

abbrev marked_down : World
marked_down = record tested {
  agents = set 0 (mark (test_disable (clean_up (cancel fresh)))) tested.agents;
}

abbrev ended : World
ended = notify_disconnect 0 (mark (test_disable (clean_up (cancel fresh)))) marked_down

tested-Reach : Reach tested
tested-Reach =
    next taken_down tested
      (next closed taken_down
        (next two_agents closed
          (next (accept start) two_agents (next start (accept start) begin (accepting start))
            (accepting (accept start)))
          (cancelling two_agents 0 fresh refl))
        (beginning closed 0 (cancel fresh) refl refl refl))
      (testing taken_down 0 (clean_up (cancel fresh)) refl refl)

ended-Reach : Reach ended
ended-Reach =
    next marked_down ended
      (next tested marked_down tested-Reach
        (marking tested 0 (test_disable (clean_up (cancel fresh))) refl refl))
      (ending marked_down 0 (mark (test_disable (clean_up (cancel fresh)))) refl refl)

-- Disable between the test and the notice comes too late.
abbrev late : World
late = record marked_down {
  agents =
      set 0 (set_disable true (mark (test_disable (clean_up (cancel fresh))))) marked_down.agents;
}

late-Reach :
    Reach
      (notify_disconnect 0 (set_disable true (mark (test_disable (clean_up (cancel fresh))))) late)
late-Reach =
    next late _
      (next marked_down late
        (next tested marked_down tested-Reach
          (marking tested 0 (test_disable (clean_up (cancel fresh))) refl refl))
        (disabling marked_down 0 (mark (test_disable (clean_up (cancel fresh)))) true refl))
      (ending late 0 (set_disable true (mark (test_disable (clean_up (cancel fresh))))) refl refl)

notices_ended : ended.notices ≡ 0 ∷ []
notices_ended = refl

Reach-running_example : ended.added ≡ ended.removed + running ended.agents
Reach-running_example = Reach-running ended ended-Reach

-- The handler of /agent/v1/close: Disable, then Close.
abbrev kicked : World
kicked = record two_agents { agents = set 0 (set_disable true fresh) two_agents.agents }

abbrev kicked_closed : World
kicked_closed = record kicked { agents = set 0 (cancel (set_disable true fresh)) kicked.agents }

abbrev kicked_down : World
kicked_down = begin_finalizer 0 (cancel (set_disable true fresh)) kicked_closed

abbrev kicked_out : World
kicked_out = record kicked_down {
  agents = set 0 (test_disable (clean_up (cancel (set_disable true fresh)))) kicked_down.agents;
}

kicked_out-Later : Later 0 kicked kicked_out
kicked_out-Later =
    step kicked kicked_down kicked_out
      (step kicked kicked_closed kicked_down
        (step kicked kicked kicked_closed (here kicked)
          (cancelling kicked 0 (set_disable true fresh) refl) refl)
        (beginning kicked_closed 0 (cancel (set_disable true fresh)) refl refl refl) refl)
      (testing kicked_down 0 (clean_up (cancel (set_disable true fresh))) refl refl) refl

Later-sent_example : sent 0 kicked_out.notices ≡ sent 0 kicked.notices
Later-sent_example =
    Later-sent 0 kicked kicked_out (set_disable true fresh) refl refl refl kicked_out-Later
