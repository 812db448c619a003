-- ===== src/Tui.antt =====
-- internal/tui/app.go: the terminal interface. A call of `Update` is one step on the state, with
-- what the world answers to it; a command is a value, and what it does when it runs is here too.
-- The widgets of the library bubbles are parameters, and so are floats.
pub mod Watch
pub mod Files
pub mod Keys
pub mod Update
pub mod Adding
pub mod Steady
pub mod Searching
pub mod Pruning
pub mod Render
pub mod Deleting
use p2pget.Prelude.{ℕ, List, [], ◌∷◌, Bool, ℤ, Option, none, some, Text}
use p2pget.Search.{Result}
use p2pget.Search.Collect.{Answer}
use p2pget.Download.{FileInfo, Rates, Error}
use p2pget.Engine.{Engine, Client, Failure}
use p2pget.Engine.Listing.{Counters}

-- `tab`
abbrev pub tab_search : ℕ
tab_search = 0

abbrev pub tab_downloads : ℕ
tab_downloads = 1

abbrev pub tab_help : ℕ
tab_help = 2

-- What `msg.String()` is for a key: the ones that a `switch` names, and the others.
pub data Key : Type 0 where
  key_ctrl_c key_ctrl_q key_tab key_shift_tab key_slash key_esc key_enter key_space key_up
        key_down :
      Key
  key_q key_d key_p key_big_d key_y key_big_y key_k key_j key_a key_n : Key
  other_key : Text → Key

-- The error of a `downloadAddedMsg`.
pub data AddError : Type 0 where
  engine_error : Failure → AddError
  neither_magnet_nor_hash : AddError

-- `tea.Msg`: a chunk holds the channel's name, an answer unless the channel is closed, the query
-- and the search it belongs to.
pub data Message : Type 0 where
  window_size : ℤ → ℤ → Message
  key : Key → Message
  search_chunk : ℕ → Option Answer → Text → ℕ → Message
  refresh : Message
  download_added : Text → Bool → Option AddError → Message
  other_message : ℕ → Message

-- `tea.Cmd`
pub data Command : Type 0 where
  no_command quit blink tick_refresh of_widget : Command
  wait_chunk : ℕ → Text → ℕ → Command
  add_download : Result → Bool → Command

-- The texts of `m.status`.
pub data Notice : Type 0 where
  nothing deleted delete_cancelled removed paused resumed info_not_ready : Notice
  delete_failed remove_failed : Failure → Notice
  toggle_failed : Error → Notice
  confirm : Text → Notice
  searching : Text → Notice
  found : ℕ → Text → List (Text × Text) → Notice
  received : ℕ → Text → Notice
  add_failed : AddError → Notice
  added_paused added : Text → Notice
  one_done : Text → Notice
  many_done : ℕ → Notice
  restarted : Text → Notice

-- `textinput.Model`
pub record Input : Type 1 where
  pub Box : Type 0
  pub new : Box
  pub focus : Box → Box
  pub blur : Box → Box
  pub focused : Box → Bool
  pub value : Box → Text
  pub type : Message → Box → Box

-- `list.Model`, over its items.
pub record Menu (A : Type 0) : Type 1 where
  pub Rows : Type 0
  pub new : Rows
  pub items : Rows → List A
  pub set_items : List A → Rows → Rows
  pub set_size : ℤ → ℤ → Rows → Rows
  pub selected_item : Rows → Option A
  pub move : Message → Rows → Rows

-- The widgets, the width of a new progress bar, the sum of two rates, and the two sorts: that of
-- `List` by a number, and that of `DedupAndRank`.
pub record Kit : Type 1 where
  pub rates : Rates
  pub add_rates : rates.Rate → rates.Rate → rates.Rate
  pub input : Input
  pub results : Menu Result
  pub dls : Menu ℕ
  pub bar_width : ℤ
  pub by_key : (ℕ → ℕ) → List ℕ → List ℕ
  pub sort : List Result → List Result

-- `fileViewState`; the download is named as in the engine.
pub record FileView : Type 0 where
  pub d : ℕ
  pub name : Text
  pub files : List FileInfo
  pub cursor : ℕ

-- `Model`, with the engine that it holds, the next channel to be made, and the paths
-- that have been removed from the disk. `search_errs` is `none` while the map is nil.
pub record Model (kit : Kit) : Type 0 where
  pub engine : Engine kit.rates.Rate
  pub width : ℤ
  pub height : ℤ
  pub active : ℕ
  pub input : kit.input.Box
  pub results : kit.results.Rows
  pub dls : kit.dls.Rows
  pub status : Notice
  pub progress_width : ℤ
  pub file_view : Option FileView
  pub search_gen : ℕ
  pub search_acc : List Result
  pub search_errs : Option (List (Text × Text))
  pub dl_list : List ℕ
  pub total_down : kit.rates.Rate
  pub total_up : kit.rates.Rate
  pub confirm_delete : Text
  pub wiped : List Text
  pub channels : ℕ

-- What the outside gives to a step: the client's answers and counters, the time, whether the state
-- file can be written, and the path that `filepath.Join` gives a name in the data directory.
pub record World : Type 0 where
  pub client : Client
  pub stats : Counters
  pub now : ℕ
  pub written : Bool
  pub path_of : Text → Text

-- `New`; the titles and limits that it sets are those of the kit's widgets.
unfoldable pub new_model : (kit : Kit) → Engine kit.rates.Rate → Model kit
new_model kit e = record {
  engine = e;
  width = ℤ.pos 0;
  height = ℤ.pos 0;
  active = tab_search;
  input = kit.input.focus kit.input.new;
  results = kit.results.set_size (ℤ.pos 0) (ℤ.pos 0) kit.results.new;
  dls = kit.dls.set_size (ℤ.pos 0) (ℤ.pos 0) kit.dls.new;
  status = nothing;
  progress_width = kit.bar_width;
  file_view = none;
  search_gen = 0;
  search_acc = [];
  search_errs = none;
  dl_list = [];
  total_down = kit.rates.still;
  total_up = kit.rates.still;
  confirm_delete = [];
  wiped = [];
  channels = 0;
}
