-- ===== src/Tests/Deletions.antt =====
-- A deletion that is asked for and confirmed, for internal/tui/app.go.
use p2pget.Prelude.{
  [], ◌∷◌, ◌++◌, ◌≡◌, ◌≢◌, ◌⊎◌, false, none, some, codes, refl, lookup, delete, text_discrete,
}
use p2pget.Engine.{remove, find, persist_state, forget}
use p2pget.Engine.Listing.{list}
use p2pget.Tui.{
  Model, new_model, download_added, no_command, quit, key, key_tab, key_big_d, key_y, key_big_y,
  confirm, deleted,
}
use p2pget.Tui.Files.{runs}
use p2pget.Tui.Watch.{refresh_downloads, same_downloads}
use p2pget.Tui.Keys.{
  update_key, press, ask_delete, answer_delete, delete_confirmed, after_remove, sync_input_focus,
  wiped_by,
}
use p2pget.Tui.Update.{update, update_added}
use p2pget.Tui.Deleting.Runs.{After, starts, presses, hears, update-wipes}
use p2pget.Tests.{ascii_only}
use p2pget.Tests.Engines.{opened}
use p2pget.Tests.Tuis.{kit, world, listed, on_downloads}

-- The key D on the downloads, then y.
abbrev asked : Model kit
asked = record on_downloads { confirm_delete = codes "abc"; status = confirm (codes "t") }

abbrev wiped : Model kit
wiped = record on_downloads {
  engine = record opened { downloads = []; dropped = 1 ∷ []; state_file = some [] };
  confirm_delete = [];
  status = deleted;
  dl_list = [];
  dls = [];
  wiped = codes "data/t" ∷ [];
}

not_quit : no_command ≢ quit
not_quit e = cc

listed-After : After none listed
unfolding update update_added refresh_downloads same_downloads list new_model
listed-After =
    hears world (download_added (codes "t") false none) {c = no_command} (starts opened) refl refl

on_downloads-After : After (some key_tab) on_downloads
unfolding update update_key press sync_input_focus new_model
on_downloads-After = presses world key_tab {c = no_command} listed-After refl not_quit

asked-After : After (some key_big_d) asked
unfolding update update_key press ask_delete new_model
asked-After = presses world key_big_d {c = no_command} on_downloads-After refl not_quit

wiped-taken : update world (key key_y) asked ≡ runs (wiped, no_command)
unfolding update update_key new_model answer_delete delete_confirmed after_remove remove find lookup
    text_discrete refresh_downloads same_downloads list persist_state forget delete wiped_by
wiped-taken = refl

update-wipes_example :
    (wiped.wiped ≡ asked.wiped)
    ⊎ ((some key_big_d ≡ some key_big_d)
        × ((key key_y ≡ key key_y) ⊎ (key key_y ≡ key key_big_y))
        × (wiped.wiped ≡ wiped_by world asked.confirm_delete asked.engine ++ asked.wiped))
update-wipes_example =
    update-wipes (some key_big_d) asked asked-After world (key key_y) wiped no_command wiped-taken
