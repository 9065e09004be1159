-- ===== src/Tests/Table.antt =====
-- The table of the commands on concrete words.
use solx.Common.{◌≡◌, refl, true, false, map, [], ◌∷◌, ascii, ok}
use solx.Common.Eq.{list_beq}
use solx.Effects.Keeps.{sent}
use solx.App.{dispatch}
use solx.Config.Alias.{expand_alias}
use solx.Commands.{plugin_names}
use solx.Commands.Table.{plugins}
use solx.Commands.Table.Quiet.{pays, dispatch-local}
use solx.Tests.World.{toy_crates}
use solx.Tests.Network.{toy_env, toy_chain, toy_world}
use solx.Tests.Editor.{lines}
use solx.Tests.Fields.{home}
use solx.Tests.Secrets.{toy_sources}

names :
    map (λ row. row.0) (plugins toy_env toy_crates toy_chain toy_sources home lines true)
    ≡ plugin_names
unfolding plugins
names = refl

expanded : expand_alias toy_world.app.config (ascii "lock" ∷ []) ≡ ok (ascii "lock" ∷ [])
unfolding expand_alias
expanded = refl

not_paying : pays (ascii "lock") ≡ false
unfolding list_beq
not_paying = refl

dispatch-local_example :
    sent
      (dispatch
        (plugins toy_env toy_crates toy_chain toy_sources home lines true)
        (ascii "lock" ∷ [])
        toy_world).1.log
    ≡ sent toy_world.log
dispatch-local_example =
    dispatch-local toy_env toy_crates toy_chain toy_sources home lines true (ascii "lock" ∷ [])
      (ascii "lock") [] toy_world expanded not_paying
