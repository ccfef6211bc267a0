-- ===== src/Protocol/Codec/Example.antt =====
-- fs-protocol/src/codec.rs: a protobuf library by way of example, whose bytes are the messages.
use fabric_fs.Prelude.{◌≡◌, refl, String, Bool, true, false, Result, ok, err, ok-injective}
use mathlib.Core.Path.{subst}
use fabric_fs.Protocol.Codec.{
  Prost, ProstLaws, MessageShape, Message, RawRequest, RawResponse, lookup_request, getattr_request,
  readdir_request, open_request, read_request, write_request, create_request, rename_request,
  unlink_request, mkdir_request, rmdir_request, statfs_request, getxattr_request, setxattr_request,
  listxattr_request, removexattr_request, release_request, readlink_request, symlink_request,
  hardlink_request, setattr_request, flush_request, fsync_request, fsyncdir_request, getlk_request,
  setlk_request, flock_request, copy_file_range_request, fallocate_request, lseek_request,
  lookup_response, getattr_response, readdir_response, open_response, read_response, write_response,
  create_response, empty_response, statfs_response, getxattr_response, listxattr_response,
  readlink_response, symlink_response, hardlink_response, setattr_response, getlk_response,
  copy_file_range_response, lseek_response,
}

pub data Kept : Type 0 where
  nothing : Kept
  kept : (shape : MessageShape) → Message shape → Kept

pub data Framed : Type 0 where
  framed_request : RawRequest Kept → Framed
  framed_response : RawResponse Kept → Framed

abbrev read_kept : (shape : MessageShape) → Kept → Result String (Message shape)
read_kept lookup_request (kept lookup_request m) = ok m
read_kept getattr_request (kept getattr_request m) = ok m
read_kept readdir_request (kept readdir_request m) = ok m
read_kept open_request (kept open_request m) = ok m
read_kept read_request (kept read_request m) = ok m
read_kept write_request (kept write_request m) = ok m
read_kept create_request (kept create_request m) = ok m
read_kept rename_request (kept rename_request m) = ok m
read_kept unlink_request (kept unlink_request m) = ok m
read_kept mkdir_request (kept mkdir_request m) = ok m
read_kept rmdir_request (kept rmdir_request m) = ok m
read_kept statfs_request (kept statfs_request m) = ok m
read_kept getxattr_request (kept getxattr_request m) = ok m
read_kept setxattr_request (kept setxattr_request m) = ok m
read_kept listxattr_request (kept listxattr_request m) = ok m
read_kept removexattr_request (kept removexattr_request m) = ok m
read_kept release_request (kept release_request m) = ok m
read_kept readlink_request (kept readlink_request m) = ok m
read_kept symlink_request (kept symlink_request m) = ok m
read_kept hardlink_request (kept hardlink_request m) = ok m
read_kept setattr_request (kept setattr_request m) = ok m
read_kept flush_request (kept flush_request m) = ok m
read_kept fsync_request (kept fsync_request m) = ok m
read_kept fsyncdir_request (kept fsyncdir_request m) = ok m
read_kept getlk_request (kept getlk_request m) = ok m
read_kept setlk_request (kept setlk_request m) = ok m
read_kept flock_request (kept flock_request m) = ok m
read_kept copy_file_range_request (kept copy_file_range_request m) = ok m
read_kept fallocate_request (kept fallocate_request m) = ok m
read_kept lseek_request (kept lseek_request m) = ok m
read_kept lookup_response (kept lookup_response m) = ok m
read_kept getattr_response (kept getattr_response m) = ok m
read_kept readdir_response (kept readdir_response m) = ok m
read_kept open_response (kept open_response m) = ok m
read_kept read_response (kept read_response m) = ok m
read_kept write_response (kept write_response m) = ok m
read_kept create_response (kept create_response m) = ok m
read_kept empty_response (kept empty_response m) = ok m
read_kept statfs_response (kept statfs_response m) = ok m
read_kept getxattr_response (kept getxattr_response m) = ok m
read_kept listxattr_response (kept listxattr_response m) = ok m
read_kept readlink_response (kept readlink_response m) = ok m
read_kept symlink_response (kept symlink_response m) = ok m
read_kept hardlink_response (kept hardlink_response m) = ok m
read_kept setattr_response (kept setattr_response m) = ok m
read_kept getlk_response (kept getlk_response m) = ok m
read_kept copy_file_range_response (kept copy_file_range_response m) = ok m
read_kept lseek_response (kept lseek_response m) = ok m
read_kept _ _ = err "another message"

abbrev request_in : Framed → Result String (RawRequest Kept)
request_in (framed_request raw) = ok raw
request_in (framed_response raw) = err "a response"

abbrev response_in : Framed → Result String (RawResponse Kept)
response_in (framed_response raw) = ok raw
response_in (framed_request raw) = err "a request"

abbrev is_nothing : Kept → Bool
is_nothing nothing = true
is_nothing (kept shape m) = false

abbrev pub kept_prost : Prost Kept Framed
kept_prost = record {
  encode_payload = λ shape m. ok (kept shape m);
  decode_payload = read_kept;
  encode_raw_request = λ raw. ok (framed_request raw);
  decode_raw_request = request_in;
  encode_raw_response = λ raw. ok (framed_response raw);
  decode_raw_response = response_in;
  no_bytes = nothing;
  is_empty_payload = is_nothing;
  frame_len = λ e. 100;
}

kept-back : (shape : MessageShape) (m : Message shape) → read_kept shape (kept shape m) ≡ ok m
kept-back lookup_request m = refl
kept-back getattr_request m = refl
kept-back readdir_request m = refl
kept-back open_request m = refl
kept-back read_request m = refl
kept-back write_request m = refl
kept-back create_request m = refl
kept-back rename_request m = refl
kept-back unlink_request m = refl
kept-back mkdir_request m = refl
kept-back rmdir_request m = refl
kept-back statfs_request m = refl
kept-back getxattr_request m = refl
kept-back setxattr_request m = refl
kept-back listxattr_request m = refl
kept-back removexattr_request m = refl
kept-back release_request m = refl
kept-back readlink_request m = refl
kept-back symlink_request m = refl
kept-back hardlink_request m = refl
kept-back setattr_request m = refl
kept-back flush_request m = refl
kept-back fsync_request m = refl
kept-back fsyncdir_request m = refl
kept-back getlk_request m = refl
kept-back setlk_request m = refl
kept-back flock_request m = refl
kept-back copy_file_range_request m = refl
kept-back fallocate_request m = refl
kept-back lseek_request m = refl
kept-back lookup_response m = refl
kept-back getattr_response m = refl
kept-back readdir_response m = refl
kept-back open_response m = refl
kept-back read_response m = refl
kept-back write_response m = refl
kept-back create_response m = refl
kept-back empty_response m = refl
kept-back statfs_response m = refl
kept-back getxattr_response m = refl
kept-back listxattr_response m = refl
kept-back readlink_response m = refl
kept-back symlink_response m = refl
kept-back hardlink_response m = refl
kept-back setattr_response m = refl
kept-back getlk_response m = refl
kept-back copy_file_range_response m = refl
kept-back lseek_response m = refl

pub kept_laws : ProstLaws kept_prost
kept_laws = record {
  payload_fits = λ shape m. (kept shape m, refl);
  request_fits = λ raw. (framed_request raw, refl);
  response_fits = λ raw. (framed_response raw, refl);
  payload_back =
      λ shape m p h. subst (λ x. read_kept shape x ≡ ok m) (ok-injective h) (kept-back shape m);
  request_back = λ raw e h. subst (λ x. request_in x ≡ ok raw) (ok-injective h) refl;
  response_back = λ raw e h. subst (λ x. response_in x ≡ ok raw) (ok-injective h) refl;
  nothing_empty = refl;
}
