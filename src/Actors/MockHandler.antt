-- ===== src/Actors/MockHandler.antt =====
-- crates/llmvm/src/capability_gateway.rs: `MockHandler`, the handler of the gateway of a child actor.
use Prim.Native.String.{◌++◌}
use boruna.Prelude.{String, true, List, [], ◌∷◌, Result, ok}
use boruna.Prelude.Int.{pos}
use boruna.Bytecode.Capability.{
  Capability, net_fetch, fs_read, fs_write, db_query, ui_render, time_now, random, llm_call,
  actor_spawn, actor_send, step_input,
}
use boruna.Bytecode.Value.{Value, unit, bool, int, float, string, list, map_of, nil, end, entry}
use boruna.Machine.Platform.{Platform}
use boruna.Machine.Display.{show_value}

-- the bits of 0.42
abbrev pub mock_random : Value
mock_random = float 0x3FDAE147AE147AE1

module _ (platform : Platform) where
  -- the text of the first argument, if there is one
  abbrev pub first_text : List Value → String
  first_text [] = ""
  first_text (v ∷ _) = show_value platform v

  unfoldable pub mock_handle : Capability → List Value → Result Value String
  mock_handle time_now args = ok (int (pos 1700000000))
  mock_handle random args = ok mock_random
  mock_handle net_fetch args =
      ok (string ("{\"mock\": true, \"url\": \"" ++ first_text args ++ "\"}"))
  mock_handle fs_read args = ok (string ("mock file content for " ++ first_text args))
  mock_handle fs_write args = ok (bool true)
  mock_handle db_query args = ok (list nil)
  mock_handle ui_render args = ok unit
  mock_handle llm_call args =
      ok (map_of (entry "mock" (bool true) (entry "status" (string "ok") end)))
  mock_handle actor_spawn args = ok unit
  mock_handle actor_send args = ok unit
  mock_handle step_input args = ok (string "")
