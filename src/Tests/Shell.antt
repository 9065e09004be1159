-- ===== src/Tests/Shell.antt =====
-- The shell, in a run of two rounds.
use solx.Common.{List, Bytes, map, ◌≡◌, refl, inr, [], ◌∷◌, ascii, none, some, ok}
use solx.Common.Eq.{list_beq, option_beq}
use solx.Common.Text.{
  split_whitespace, words_from, white_space, trim_line_end, is_blank, first_word, contains,
  starts_with, trim_start, word,
}
use solx.Config.Alias.{expand_alias}
use solx.LineEditor.History.{remember, left_out}
use solx.Effects.{◌>>=◌, lift, pure, attempt, the_app, update_app, answer, ask}
use solx.App.{Plugins}
use solx.App.{
  drop_session, with_session, refresh_history_inner, refresh_history, find_plugin,
  dispatch_resolved,
}
use solx.App.Input.{line_end, read_bounded_line}
use solx.App.Input.Blocks.{line_of, read_bounded_line-line_of}
use solx.App.Input.Lines.{joined}
use solx.App.Shell.{run_line, shell_round, enter_shell, Shell, Reachable, enter, round}
use solx.App.Sessions.{IsSound, Reachable-IsSound}
use solx.Tests.World.{toy_crates}
use solx.Tests.Network.{toy_chain, toy_env, toy_world}

abbrev toy_plugins : Plugins
toy_plugins = (ascii "no", λ args. pure tt) ∷ []

abbrev entered : Shell
entered = record {
  world = (enter_shell toy_env toy_crates toy_chain toy_plugins toy_world).1;
  history = record { entries = []; position = none; draft = [] };
}

abbrev second_head : Shell
second_head = record {
  world = (shell_round toy_env toy_crates toy_chain toy_plugins entered.history entered.world).1;
  history = record { entries = ascii "no" ∷ []; position = none; draft = [] };
}

enters :
    enter_shell toy_env toy_crates toy_chain toy_plugins toy_world
    ≡ (ok entered.history, entered.world)
unfolding enter_shell ◌>>=◌ update_app the_app answer pure
enters = refl

rounds :
    shell_round toy_env toy_crates toy_chain toy_plugins entered.history entered.world
    ≡ (ok (some second_head.history), second_head.world)
unfolding enter_shell shell_round refresh_history refresh_history_inner with_session run_line
    dispatch_resolved find_plugin ◌>>=◌ update_app the_app answer ask attempt lift pure drop_session
    split_whitespace words_from white_space expand_alias remember left_out trim_line_end is_blank
    first_word contains starts_with trim_start word list_beq option_beq
rounds = refl

two_rounds : Reachable toy_env toy_crates toy_chain toy_plugins toy_world second_head
two_rounds = round entered second_head (enter entered enters) rounds

Reachable-IsSound_example : IsSound second_head.world.app second_head.history
Reachable-IsSound_example =
    Reachable-IsSound toy_env toy_crates toy_chain toy_plugins toy_world second_head (inr refl)
      two_rounds

abbrev two_blocks : List Bytes
two_blocks = ascii "he" ∷ ascii "lp\nno" ∷ []

read_bounded_line-line_of_example :
    (rest : List Bytes) × (read_bounded_line (map ok two_blocks)
      ≡ (line_of (ascii "help\n"), map ok rest))
    × (joined rest ≡ ascii "no")
unfolding line_end
read_bounded_line-line_of_example = read_bounded_line-line_of two_blocks (refl, (refl, tt))
