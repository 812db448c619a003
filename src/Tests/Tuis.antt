-- ===== src/Tests/Tuis.antt =====
-- A terminal interface over an engine with one download, for internal/tui/app.go.
use mathlib.Core.List.Permᴰ
use p2pget.Prelude.{
  ◌++◌, ℕ, List, [], ◌∷◌, ◌≡◌, ◌≢◌, ◌<◌, Bool, true, false, none, some, ℤ, pos, ◌+ℤ◌, Text, codes,
  refl, get_elem?, lookup, text_discrete, inr, suc, arith, contains,
}
use p2pget.Tui.{
  Input, Menu, Kit, Model, World, FileView, new_model, download_added, no_command, of_widget, added,
  Message, search_chunk, window_size, key, key_tab, key_enter, key_down, tab_search,
}
use p2pget.Tui.Files.{files_at, panics, update_file_view, cursor_down}
use p2pget.Tui.Watch.{prune_completed, refresh_downloads, same_downloads}
use p2pget.Engine.Listing.{list}
use p2pget.Download.{Download, File, FileInfo, priority_normal, files, file_infos}
use p2pget.Tui.Keys.{start_search, update_key, press, sync_input_focus, open_files, pass_on}
use p2pget.Tui.Update.{update, update_added}
use p2pget.Tui.Steady.{ViewSteady, IsDocumented}
use p2pget.Tui.Steady.Runs.{Sent, Reached, starts, takes_message, update-steady}
use p2pget.Search.Collect.{stream_one, aggregate}
use p2pget.Engine.Valid.{IsValid}
use p2pget.Tui.Searching.{
  IsDocumented as MenuIsDocumented, Streams, closes, answers, late, resizes, run_messages,
}
use p2pget.Tui.Searching.Streamed.{Shows, start_search-aggregate}
use p2pget.Tui.Pruning.Done.{IsDone}
use p2pget.Tui.Pruning.Leaves.{prune_completed_lem}
use p2pget.Tui.Adding.{run_add}
use p2pget.Tui.Adding.Holds.{Tells, run_add_lem}
use p2pget.Tests.Sorts.{by_seeders, by_seeders-IsSort}
use p2pget.Tests.Searches.{from_nyaa, from_piratebay, here}
use p2pget.Tests.{ascii_only}
use p2pget.Tests.Downloads.{byte_rates, silent, torrent, running}
use p2pget.Tests.Engines.{one_torrent, opened, opened-IsValid}

-- An input that is focused or not, with a fixed text.
abbrev box : Input
box = record {
  Box = Bool;
  new = false;
  focus = λ b. true;
  blur = λ b. false;
  focused = λ b. b;
  value = λ b. codes "film";
  type = λ msg b. b;
}

box-IsDocumented : IsDocumented box
box-IsDocumented = record {
  focus-focused = λ b. refl;
  blur-focused = λ b. refl;
  type-focused = λ msg b. refl;
}

-- A list whose first item is selected.
abbrev plain_menu : (A : Type 0) → Menu A
plain_menu A = record {
  Rows = List A;
  new = [];
  items = λ l. l;
  set_items = λ xs l. xs;
  set_size = λ w h l. l;
  selected_item = λ l. get_elem? l 0;
  move = λ msg l. l;
}

abbrev pub kit : Kit
kit = record {
  rates = byte_rates;
  add_rates = ◌+ℤ◌;
  input = box;
  results = plain_menu _;
  dls = plain_menu ℕ;
  bar_width = pos 40;
  by_key = λ by ids. ids;
  sort = by_seeders;
}

abbrev pub world : World
world = record {
  client = one_torrent;
  stats = λ handle. silent;
  now = 20;
  written = true;
  path_of = λ name. codes "data/" ++ name;
}

-- The downloads are listed, their tab is opened, and the files of the first are shown.
abbrev pub started : Model kit
started = new_model kit opened

abbrev pub listed : Model kit
listed = record started { dl_list = 0 ∷ []; dls = 0 ∷ []; status = added (codes "t") }

abbrev pub on_downloads : Model kit
on_downloads = record listed { active = 1; input = false }

abbrev first_files : FileView
first_files = record { d = 0; name = codes "t"; files = files_at opened 0; cursor = 0 }

abbrev with_files : Model kit
with_files = record on_downloads { file_view = some first_files }

abbrev lower : Model kit
lower = record with_files { file_view = some (record first_files { cursor = 1 }) }

listed-Reached : Reached listed
unfolding update update_added refresh_downloads same_downloads list new_model
listed-Reached =
    takes_message world (download_added (codes "t") false none) {c = no_command} (starts opened) tt
      refl

on_downloads-Reached : Reached on_downloads
unfolding update update_key press sync_input_focus new_model
on_downloads-Reached = takes_message world (key key_tab) {c = no_command} listed-Reached tt refl

with_files-Reached : Reached with_files
unfolding update update_key press open_files pass_on files_at files file_infos new_model
with_files-Reached =
    takes_message world (key key_enter) {c = of_widget} on_downloads-Reached tt refl

lower-Reached : Reached lower
unfolding update update_key update_file_view cursor_down files_at files file_infos new_model
lower-Reached = takes_message world (key key_down) {c = no_command} with_files-Reached tt refl

update-steady_example :
    (lower.active < 3)
    × (kit.input.focused lower.input ≡ true → lower.active ≡ tab_search)
    × ViewSteady lower.engine lower.active lower.confirm_delete lower.file_view
    × (lower.search_gen ≢ 0 → (errs : List (Text × Text)) × (lower.search_errs ≡ some errs))
    × ((w : World) (msg : Message) → Sent msg → update w msg lower ≢ panics)
update-steady_example = update-steady box-IsDocumented by_seeders-IsSort lower lower-Reached

menu-IsDocumented : MenuIsDocumented kit.results
menu-IsDocumented = record {
  set_items-items = λ xs l. refl;
  set_size-items = λ w h l. refl;
  move-items = λ msg l. refl;
}

abbrev second : FileInfo
second = record { index = 1; path = codes "b"; size = 20; completed = 0; wanted = false }

-- A late chunk of an older search and a resize come between the two answers.
abbrev chunks : List Message
chunks =
    search_chunk 0 (some (stream_one (codes "iso") from_nyaa)) (codes "iso") 1
    ∷ search_chunk 0 none (codes "old") 0
    ∷ window_size (pos 80) (pos 24)
    ∷ search_chunk 0 (some (stream_one (codes "iso") from_piratebay)) (codes "iso") 1
    ∷ search_chunk 0 none (codes "iso") 1
    ∷ []

chunks-Streams :
    Streams (codes "iso") (suc started.search_gen) chunks (from_nyaa ∷ from_piratebay ∷ [])
unfolding new_model
chunks-Streams = answers 0 from_nyaa (
    late 0 none (codes "old") 0 (λ e. omega arith)
      (resizes (pos 80) (pos 24) (answers 0 from_piratebay (closes 0))))

start_search-aggregate_example :
    Shows menu-IsDocumented
      (codes "iso")
      (aggregate by_seeders (codes "iso") (from_nyaa ∷ from_piratebay ∷ [])).0
      (run_messages world chunks (start_search (codes "iso") started).0)
start_search-aggregate_example =
    start_search-aggregate menu-IsDocumented by_seeders-IsSort world (codes "iso") started chunks
      (from_nyaa ∷ from_piratebay ∷ []) chunks-Streams

-- One download has all that it wants, the other does not.
abbrev done_file : File
done_file = record { path = codes "a"; size = 10; completed = 10; priority = priority_normal }

abbrev done : Download ℤ
done = record running {
  t = record torrent { info_hash = codes "def"; files = some (done_file ∷ []) };
  wanted = some (true ∷ []);
}

abbrev two : Model kit
two = record started {
  engine = record opened {
    heap = running ∷ done ∷ [];
    downloads = (codes "abc", 0) ∷ (codes "def", 1) ∷ [];
  };
}

two-IsValid : IsValid two.engine
unfolding contains text_discrete
two-IsValid = record {
  distinct = (refl, (refl, tt));
  entries = ((running, refl, refl), ((done, refl, refl), tt));
}

prune_completed_lem_example :
    let m' = prune_completed world two in
    (m'.engine.heap ≡ two.engine.heap)
    × (m'.wiped ≡ two.wiped)
    × ((h : Text)
        → lookup text_discrete h two.engine.downloads ≡ none
        → lookup text_discrete h m'.engine.downloads ≡ none)
    × ((h : Text) (id : ℕ) (d : Download ℤ)
        → lookup text_discrete h two.engine.downloads ≡ some id
        → get_elem? two.engine.heap id ≡ some d
        → (IsDone two.file_view id d → lookup text_discrete h m'.engine.downloads ≡ none)
          × (¬ IsDone two.file_view id d → lookup text_discrete h m'.engine.downloads ≡ some id))
prune_completed_lem_example =
    prune_completed_lem world two two-IsValid (λ id d at. refl) (λ by ids. Permᴰ.refl ids)

run_add_lem_example : Tells here true opened (run_add (pos 0) world here true opened)
run_add_lem_example = run_add_lem (pos 0) world opened opened-IsValid here true (inr (refl, refl))
