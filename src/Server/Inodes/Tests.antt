-- ===== src/Server/Inodes/Tests.antt =====
-- The inode map at concrete paths.
use fabric_fs.Prelude.{
  ℕ, ◌≡◌, ◌≢◌, ◌<◌, refl, false, some, none, List, [], ◌∷◌, bytes, any, bytes_eq, pair_eq, ◌===◌,
  u64_max, arith,
}
use fabric_fs.Prelude.Map
use fabric_fs.Protocol.Path
use fabric_fs.Protocol.Path.{root}
use fabric_fs.Server.Inodes.{
  new, normalize_path, allocate_inode, forget_previous, set_path_identity, inode_for, remove_path,
  move_paths, rename_path, InodeCall, run_call, run_calls,
}
use fabric_fs.Server.Inodes.Fresh.{inode_for-new}
use fabric_fs.Server.Inodes.Kept.{inode_for-again}

program : Unit {0}
unfolding any Map.get Map.remove Map.insert Map.filter_map Path.strip_prefix new normalize_path
    allocate_inode forget_previous set_path_identity inode_for remove_path move_paths rename_path
    run_call run_calls
program = tt

abbrev some_file : List ℕ
some_file = bytes "/a/f"

abbrev moved_file : List ℕ
moved_file = bytes "/b/f"

-- The file `/a/f` and its directory, which is then renamed.
abbrev renamed_calls : List InodeCall
renamed_calls =
    InodeCall.ask_inode (bytes "/a/") none
    ∷ InodeCall.ask_inode some_file (some (1, 10))
    ∷ InodeCall.move_tree (bytes "/a") (bytes "/b")
    ∷ []

keeps_moved : Map.get (run_calls renamed_calls new).by_path moved_file ≡ some 3
unfolding program
keeps_moved = refl

-- Another link of the file is known by its identity.
keeps_identity : (inode_for (run_calls renamed_calls new) (bytes "/link") (some (1, 10))).1 ≡ 3
unfolding program
keeps_identity = refl

inode_for-again_example :
    (inode_for (inode_for new some_file (some (1, 10))).0 some_file (some (2, 20))).1
    ≡ (inode_for new some_file (some (1, 10))).1
inode_for-again_example = inode_for-again new some_file (some (1, 10)) (some (2, 20))

bounded : (run_calls renamed_calls new).next_inode < u64_max
unfolding program
bounded = ground arith

below_root : (normalize_path some_file === root) ≡ false
unfolding program
below_root = refl

gone : Map.get (run_calls renamed_calls new).by_path (normalize_path some_file) ≡ none
unfolding program
gone = refl

other_identity : Map.get (run_calls renamed_calls new).by_identity (2, 20) ≡ none
unfolding program
other_identity = refl

inode_for-new_example :
    Map.get (run_calls renamed_calls new).by_path moved_file
    ≢ some (inode_for (run_calls renamed_calls new) some_file (some (2, 20))).1
inode_for-new_example =
    inode_for-new renamed_calls some_file (some (2, 20)) moved_file bounded below_root gone
      other_identity
