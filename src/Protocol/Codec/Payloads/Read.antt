-- ===== src/Protocol/Codec/Payloads/Read.antt =====
-- fs-protocol/src/payload.rs: what is read for an operation is a valid payload of that operation.
use fabric_fs.Prelude.{◌≡◌, refl, sym, ap, ◌∙◌, Result, ok, err, ok-bind, ok-seq, ok-injective}
use fabric_fs.Protocol.Error.{ProtocolError}
use fabric_fs.Protocol.Operation.{Operation}
use fabric_fs.Protocol.RequestPayload
use fabric_fs.Protocol.RequestPayload.{RequestPayload}
use fabric_fs.Protocol.ResponsePayload
use fabric_fs.Protocol.ResponsePayload.{ResponsePayload}
use fabric_fs.Protocol.Codec.{
  Prost, decode_message, lookup_request, getattr_request, readdir_request, open_request,
  read_request, write_request, create_request, rename_request, unlink_request, mkdir_request,
  rmdir_request, statfs_request, getxattr_request, setxattr_request, listxattr_request,
  removexattr_request, release_request, readlink_request, symlink_request, hardlink_request,
  setattr_request, flush_request, fsync_request, fsyncdir_request, getlk_request, setlk_request,
  flock_request, copy_file_range_request, fallocate_request, lseek_request, lookup_response,
  getattr_response, readdir_response, open_response, read_response, write_response, create_response,
  empty_response, statfs_response, getxattr_response, listxattr_response, readlink_response,
  symlink_response, hardlink_response, setattr_response, getlk_response, copy_file_range_response,
  lseek_response,
}
use fabric_fs.Protocol.Codec.Payloads.{
  read_request_payload, decode_request_payload, read_response_payload, decode_response_payload,
  read_as,
}

request_read_as :
    {M : Type 0} (wrap : M → RequestPayload) (o : Operation) (r : Result ProtocolError M)
    (payload : RequestPayload)
    → ((m : M) → RequestPayload.operation (wrap m) ≡ o)
    → read_as wrap r ≡ ok payload
    → RequestPayload.operation payload ≡ o
request_read_as wrap o (ok m) payload e h = ap RequestPayload.operation (sym (ok-injective h)) ∙ e m
request_read_as wrap o (err x) payload e h = cc

-- The payload that is read for an operation is one of that operation.
read_request_payload-operation :
    {P E : Type 0} (prost : Prost P E) (o : Operation) (p : P) (payload : RequestPayload)
    → read_request_payload prost o p ≡ ok payload
    → RequestPayload.operation payload ≡ o
unfolding read_request_payload RequestPayload.operation
read_request_payload-operation prost Operation.lookup p payload h =
    request_read_as RequestPayload.lookup Operation.lookup (decode_message prost lookup_request p)
      payload (λ m. refl) h
read_request_payload-operation prost Operation.getattr p payload h =
    request_read_as RequestPayload.getattr Operation.getattr
      (decode_message prost getattr_request p) payload (λ m. refl) h
read_request_payload-operation prost Operation.readdir p payload h =
    request_read_as RequestPayload.readdir Operation.readdir
      (decode_message prost readdir_request p) payload (λ m. refl) h
read_request_payload-operation prost Operation.«open» p payload h =
    request_read_as RequestPayload.«open» Operation.«open» (decode_message prost open_request p)
      payload (λ m. refl) h
read_request_payload-operation prost Operation.read p payload h =
    request_read_as RequestPayload.read Operation.read (decode_message prost read_request p) payload
      (λ m. refl) h
read_request_payload-operation prost Operation.write p payload h =
    request_read_as RequestPayload.write Operation.write (decode_message prost write_request p)
      payload (λ m. refl) h
read_request_payload-operation prost Operation.create p payload h =
    request_read_as RequestPayload.create Operation.create (decode_message prost create_request p)
      payload (λ m. refl) h
read_request_payload-operation prost Operation.rename p payload h =
    request_read_as RequestPayload.rename Operation.rename (decode_message prost rename_request p)
      payload (λ m. refl) h
read_request_payload-operation prost Operation.unlink p payload h =
    request_read_as RequestPayload.unlink Operation.unlink (decode_message prost unlink_request p)
      payload (λ m. refl) h
read_request_payload-operation prost Operation.mkdir p payload h =
    request_read_as RequestPayload.mkdir Operation.mkdir (decode_message prost mkdir_request p)
      payload (λ m. refl) h
read_request_payload-operation prost Operation.rmdir p payload h =
    request_read_as RequestPayload.rmdir Operation.rmdir (decode_message prost rmdir_request p)
      payload (λ m. refl) h
read_request_payload-operation prost Operation.statfs p payload h =
    request_read_as RequestPayload.statfs Operation.statfs (decode_message prost statfs_request p)
      payload (λ m. refl) h
read_request_payload-operation prost Operation.getxattr p payload h =
    request_read_as RequestPayload.getxattr Operation.getxattr
      (decode_message prost getxattr_request p) payload (λ m. refl) h
read_request_payload-operation prost Operation.setxattr p payload h =
    request_read_as RequestPayload.setxattr Operation.setxattr
      (decode_message prost setxattr_request p) payload (λ m. refl) h
read_request_payload-operation prost Operation.listxattr p payload h =
    request_read_as RequestPayload.listxattr Operation.listxattr
      (decode_message prost listxattr_request p) payload (λ m. refl) h
read_request_payload-operation prost Operation.removexattr p payload h =
    request_read_as RequestPayload.removexattr Operation.removexattr
      (decode_message prost removexattr_request p) payload (λ m. refl) h
read_request_payload-operation prost Operation.release p payload h =
    request_read_as RequestPayload.release Operation.release
      (decode_message prost release_request p) payload (λ m. refl) h
read_request_payload-operation prost Operation.readlink p payload h =
    request_read_as RequestPayload.readlink Operation.readlink
      (decode_message prost readlink_request p) payload (λ m. refl) h
read_request_payload-operation prost Operation.symlink p payload h =
    request_read_as RequestPayload.symlink Operation.symlink
      (decode_message prost symlink_request p) payload (λ m. refl) h
read_request_payload-operation prost Operation.hardlink p payload h =
    request_read_as RequestPayload.hardlink Operation.hardlink
      (decode_message prost hardlink_request p) payload (λ m. refl) h
read_request_payload-operation prost Operation.setattr p payload h =
    request_read_as RequestPayload.setattr Operation.setattr
      (decode_message prost setattr_request p) payload (λ m. refl) h
read_request_payload-operation prost Operation.flush p payload h =
    request_read_as RequestPayload.flush Operation.flush (decode_message prost flush_request p)
      payload (λ m. refl) h
read_request_payload-operation prost Operation.fsync p payload h =
    request_read_as RequestPayload.fsync Operation.fsync (decode_message prost fsync_request p)
      payload (λ m. refl) h
read_request_payload-operation prost Operation.fsyncdir p payload h =
    request_read_as RequestPayload.fsyncdir Operation.fsyncdir
      (decode_message prost fsyncdir_request p) payload (λ m. refl) h
read_request_payload-operation prost Operation.getlk p payload h =
    request_read_as RequestPayload.getlk Operation.getlk (decode_message prost getlk_request p)
      payload (λ m. refl) h
read_request_payload-operation prost Operation.setlk p payload h =
    request_read_as RequestPayload.setlk Operation.setlk (decode_message prost setlk_request p)
      payload (λ m. refl) h
read_request_payload-operation prost Operation.flock p payload h =
    request_read_as RequestPayload.flock Operation.flock (decode_message prost flock_request p)
      payload (λ m. refl) h
read_request_payload-operation prost Operation.copy_file_range p payload h =
    request_read_as RequestPayload.copy_file_range Operation.copy_file_range
      (decode_message prost copy_file_range_request p) payload (λ m. refl) h
read_request_payload-operation prost Operation.fallocate p payload h =
    request_read_as RequestPayload.fallocate Operation.fallocate
      (decode_message prost fallocate_request p) payload (λ m. refl) h
read_request_payload-operation prost Operation.lseek p payload h =
    request_read_as RequestPayload.lseek Operation.lseek (decode_message prost lseek_request p)
      payload (λ m. refl) h

pub decode_request_payload-valid :
    {P E : Type 0} (prost : Prost P E) (o : Operation) (p : P) (payload : RequestPayload)
    → decode_request_payload prost o p ≡ ok payload
    → (RequestPayload.operation payload ≡ o) × (RequestPayload.validate payload ≡ ok tt)
unfolding decode_request_payload
decode_request_payload-valid prost o p payload h =
    let (read, e, rest) = ok-bind (read_request_payload prost o p) _ payload h in
    let (valid, same) = ok-seq (RequestPayload.validate read) (ok read) payload rest in
    let at : read ≡ payload = ok-injective same in
    rw⁻¹ at (read_request_payload-operation prost o p read e, valid)

response_read_as :
    {M : Type 0} (wrap : M → ResponsePayload) (o : Operation) (r : Result ProtocolError M)
    (payload : ResponsePayload)
    → ((m : M) → ResponsePayload.operation (wrap m) ≡ o)
    → read_as wrap r ≡ ok payload
    → ResponsePayload.operation payload ≡ o
response_read_as wrap o (ok m) payload e h =
    ap ResponsePayload.operation (sym (ok-injective h)) ∙ e m
response_read_as wrap o (err x) payload e h = cc

-- The payload that is read for an operation is one of that operation.
read_response_payload-operation :
    {P E : Type 0} (prost : Prost P E) (o : Operation) (p : P) (payload : ResponsePayload)
    → read_response_payload prost o p ≡ ok payload
    → ResponsePayload.operation payload ≡ o
unfolding read_response_payload ResponsePayload.operation
read_response_payload-operation prost Operation.lookup p payload h =
    response_read_as ResponsePayload.lookup Operation.lookup
      (decode_message prost lookup_response p) payload (λ m. refl) h
read_response_payload-operation prost Operation.getattr p payload h =
    response_read_as ResponsePayload.getattr Operation.getattr
      (decode_message prost getattr_response p) payload (λ m. refl) h
read_response_payload-operation prost Operation.readdir p payload h =
    response_read_as ResponsePayload.readdir Operation.readdir
      (decode_message prost readdir_response p) payload (λ m. refl) h
read_response_payload-operation prost Operation.«open» p payload h =
    response_read_as ResponsePayload.«open» Operation.«open» (decode_message prost open_response p)
      payload (λ m. refl) h
read_response_payload-operation prost Operation.read p payload h =
    response_read_as ResponsePayload.read Operation.read (decode_message prost read_response p)
      payload (λ m. refl) h
read_response_payload-operation prost Operation.write p payload h =
    response_read_as ResponsePayload.write Operation.write (decode_message prost write_response p)
      payload (λ m. refl) h
read_response_payload-operation prost Operation.create p payload h =
    response_read_as ResponsePayload.create Operation.create
      (decode_message prost create_response p) payload (λ m. refl) h
read_response_payload-operation prost Operation.rename p payload h =
    response_read_as ResponsePayload.rename Operation.rename (decode_message prost empty_response p)
      payload (λ m. refl) h
read_response_payload-operation prost Operation.unlink p payload h =
    response_read_as ResponsePayload.unlink Operation.unlink (decode_message prost empty_response p)
      payload (λ m. refl) h
read_response_payload-operation prost Operation.mkdir p payload h =
    response_read_as ResponsePayload.mkdir Operation.mkdir (decode_message prost lookup_response p)
      payload (λ m. refl) h
read_response_payload-operation prost Operation.rmdir p payload h =
    response_read_as ResponsePayload.rmdir Operation.rmdir (decode_message prost empty_response p)
      payload (λ m. refl) h
read_response_payload-operation prost Operation.statfs p payload h =
    response_read_as ResponsePayload.statfs Operation.statfs
      (decode_message prost statfs_response p) payload (λ m. refl) h
read_response_payload-operation prost Operation.getxattr p payload h =
    response_read_as ResponsePayload.getxattr Operation.getxattr
      (decode_message prost getxattr_response p) payload (λ m. refl) h
read_response_payload-operation prost Operation.setxattr p payload h =
    response_read_as ResponsePayload.setxattr Operation.setxattr
      (decode_message prost empty_response p) payload (λ m. refl) h
read_response_payload-operation prost Operation.listxattr p payload h =
    response_read_as ResponsePayload.listxattr Operation.listxattr
      (decode_message prost listxattr_response p) payload (λ m. refl) h
read_response_payload-operation prost Operation.removexattr p payload h =
    response_read_as ResponsePayload.removexattr Operation.removexattr
      (decode_message prost empty_response p) payload (λ m. refl) h
read_response_payload-operation prost Operation.release p payload h =
    response_read_as ResponsePayload.release Operation.release
      (decode_message prost empty_response p) payload (λ m. refl) h
read_response_payload-operation prost Operation.readlink p payload h =
    response_read_as ResponsePayload.readlink Operation.readlink
      (decode_message prost readlink_response p) payload (λ m. refl) h
read_response_payload-operation prost Operation.symlink p payload h =
    response_read_as ResponsePayload.symlink Operation.symlink
      (decode_message prost symlink_response p) payload (λ m. refl) h
read_response_payload-operation prost Operation.hardlink p payload h =
    response_read_as ResponsePayload.hardlink Operation.hardlink
      (decode_message prost hardlink_response p) payload (λ m. refl) h
read_response_payload-operation prost Operation.setattr p payload h =
    response_read_as ResponsePayload.setattr Operation.setattr
      (decode_message prost setattr_response p) payload (λ m. refl) h
read_response_payload-operation prost Operation.flush p payload h =
    response_read_as ResponsePayload.flush Operation.flush (decode_message prost empty_response p)
      payload (λ m. refl) h
read_response_payload-operation prost Operation.fsync p payload h =
    response_read_as ResponsePayload.fsync Operation.fsync (decode_message prost empty_response p)
      payload (λ m. refl) h
read_response_payload-operation prost Operation.fsyncdir p payload h =
    response_read_as ResponsePayload.fsyncdir Operation.fsyncdir
      (decode_message prost empty_response p) payload (λ m. refl) h
read_response_payload-operation prost Operation.getlk p payload h =
    response_read_as ResponsePayload.getlk Operation.getlk (decode_message prost getlk_response p)
      payload (λ m. refl) h
read_response_payload-operation prost Operation.setlk p payload h =
    response_read_as ResponsePayload.setlk Operation.setlk (decode_message prost empty_response p)
      payload (λ m. refl) h
read_response_payload-operation prost Operation.flock p payload h =
    response_read_as ResponsePayload.flock Operation.flock (decode_message prost empty_response p)
      payload (λ m. refl) h
read_response_payload-operation prost Operation.copy_file_range p payload h =
    response_read_as ResponsePayload.copy_file_range Operation.copy_file_range
      (decode_message prost copy_file_range_response p) payload (λ m. refl) h
read_response_payload-operation prost Operation.fallocate p payload h =
    response_read_as ResponsePayload.fallocate Operation.fallocate
      (decode_message prost empty_response p) payload (λ m. refl) h
read_response_payload-operation prost Operation.lseek p payload h =
    response_read_as ResponsePayload.lseek Operation.lseek (decode_message prost lseek_response p)
      payload (λ m. refl) h

pub decode_response_payload-valid :
    {P E : Type 0} (prost : Prost P E) (o : Operation) (p : P) (payload : ResponsePayload)
    → decode_response_payload prost o p ≡ ok payload
    → (ResponsePayload.operation payload ≡ o) × (ResponsePayload.validate payload ≡ ok tt)
unfolding decode_response_payload
decode_response_payload-valid prost o p payload h =
    let (read, e, rest) = ok-bind (read_response_payload prost o p) _ payload h in
    let (valid, same) = ok-seq (ResponsePayload.validate read) (ok read) payload rest in
    let at : read ≡ payload = ok-injective same in
    rw⁻¹ at (read_response_payload-operation prost o p read e, valid)
