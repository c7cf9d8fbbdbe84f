-- ===== src/Disk.antt =====
-- What the sources use of Boost.Filesystem, as an interface: the state of the disk is passed from
-- call to call. An exception of a call is `none`.
use cclyzerpp.Prelude.{Text, Bool, Option, List}

pub record FileSystem : Type 1 where
  pub Disk : Type 0
  pub exists : Disk → Text → Bool
  pub is_directory : Disk → Text → Bool
  pub is_empty : Disk → Text → Bool
  -- the paths of `directory_iterator` and of `recursive_directory_iterator`
  pub entries : Disk → Text → List Text
  pub entries_recursive : Disk → Text → List Text
  pub create_directory : Disk → Text → Option Disk
  pub create_directories : Disk → Text → Option Disk
  -- `create_directory(path.parent_path())`
  pub create_parent_directory : Disk → Text → Option Disk
  pub remove_all : Disk → Text → Disk
  -- a file with its contents, when its stream is closed
  pub store : Disk → Text → Text → Disk
