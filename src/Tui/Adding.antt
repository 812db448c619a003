-- ===== src/Tui/Adding.antt =====
-- What the command of `addDownload` of internal/tui/app.go does when it runs.
pub mod Holds
use p2pget.Prelude.{
  ℕ, List, [], ◌∷◌, Bool, true, false, not, if◌then◌else◌, Option, none, some, Text, is_empty,
  get_elem?,
}
use p2pget.Strings.{Unicode}
use p2pget.Search.{Result}
use p2pget.Download.{Download, set_paused}
use p2pget.Engine
use p2pget.Engine.{Engine, modify, add_magnet, add_info_hash}
use p2pget.Tui.{World, AddError, Message, download_added, engine_error, neither_magnet_nor_hash}

-- `d.InfoHash()` of a download that is named.
unfoldable pub hash_at : {R : Type 0} → Engine R → ℕ → Text
hash_at e id = elim (get_elem? e.heap id) [ none ↦ [] | some d ↦ d.t.info_hash ]

-- `d, err` behind the `switch`.
pub data Tried : Type 0 where
  got : ℕ → Tried
  refused : AddError → Tried

abbrev pub tried : Engine.Outcome ℕ → Tried
tried (Engine.ok id) = got id
tried (Engine.failed x) = refused (engine_error x)

-- Behind the `switch`: the pause, and the name in the message.
unfoldable pub finish_add : {R : Type 0} → Result → Bool → Engine R × Tried → Engine R × Message
unfolding hash_at
finish_add r held (e, refused x) = (e, download_added [] false (some x))
finish_add r held (e, got id) =
    let e' = if held then modify id (set_paused true) e else e in
    let name = if is_empty r.title then hash_at e' id else r.title in
    (e', download_added name held none)

module _ {R : Type 0} ⦃u : Unicode⦄ (still : R) (w : World) where
  -- The `switch` on what the result has.
  unfoldable pub try_add : Result → Engine R → Engine R × Tried
  try_add r e =
      if not (is_empty r.magnet)
      then (let (e', outcome) = add_magnet still w.client w.now w.written r.magnet e in
          (e', tried outcome))
      else if not (is_empty r.info_hash)
      then (let (e', outcome) = add_info_hash still w.client w.now w.written r.info_hash e in
          (e', tried outcome))
      else (e, refused neither_magnet_nor_hash)

  -- The command of `addDownload`: what it does to the engine, and the message it returns.
  unfoldable pub run_add : Result → Bool → Engine R → Engine R × Message
  unfolding try_add finish_add
  run_add r held e = finish_add r held (try_add r e)
