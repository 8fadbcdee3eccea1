-- ===== src/World/Arrives.antt =====
-- What a program asks of the file system or of the network is what the host asks of the runtime.
use wac_mono.Base.{◌+◌, ◌≡◌, refl, ℤ, pos, Bool, true, some, ◌++◌, length}
use wac_mono.Wire.Bytes.{Bytes, IsInt32, StandsFrom-past, subarray-stands, subarray_from-stands}
use wac_mono.Wire.Requests.{
  headed, prefixed, two_paths, flagged, write_file_payload, connect_payload,
}
use wac_mono.Wire.Unpack.{unpack_write_file, unpack_flagged, unpack_connect}
use wac_mono.Wire.Spawning.{Fits, StandsFrom-i32, is_one}
use wac_mono.Wire.Pushing.{unpack_rename-two_paths}
use wac_mono.Wire.Told.{read_i32le-first}
use wac_mono.ChildStack.{Stack}
use wac_mono.World.{Options, may_write}
use wac_mono.World.Serve.{
  on_write_file, on_mkdir, on_remove, on_rename, on_connect, write_file, mkdir, remove, rename,
  connect, writes_file, makes_dir, removes, renames, connects, calls, place, serve, when_writable,
  when_online,
}
use wac_mono.Mutate.Texts.{Text}

module _ (encode : Text → Bytes) (decode : Bytes → Text) where
  unpack_write_file-payload :
      (path : Text) (body : Bytes)
      → decode (encode path) ≡ path
      → Fits (encode path)
      → unpack_write_file decode (write_file_payload encode path body) ≡ some (path, body)
  unfolding unpack_write_file write_file_payload prefixed
  unpack_write_file-payload path body back fits =
      let p = write_file_payload encode path body in
      let at_path = StandsFrom-i32 p 0 (pos (length (encode path))) (encode path ++ body) refl in
      rw
        (
          read_i32le-first (pos (length (encode path))) (encode path ++ body) fits,
          subarray-stands p 4 (encode path) body at_path,
          subarray_from-stands p (4 + length (encode path)) body
              (StandsFrom-past p 4 (encode path) body at_path),
          back,
        )
        refl

  unpack_flagged-flagged :
      (on : Bool) (path : Text)
      → decode (encode path) ≡ path
      → unpack_flagged decode (flagged encode on path) ≡ (on, path)
  unfolding unpack_flagged flagged
  unpack_flagged-flagged on path back =
      rw (subarray_from-stands (flagged encode on path) 1 (encode path) refl, back)
        (λ i. (is_one on i, path))

  unpack_connect-connect_payload :
      (host : Text) (port : ℤ)
      → decode (encode host) ≡ host
      → IsInt32 port
      → unpack_connect decode (connect_payload encode host port) ≡ some (host, port)
  unfolding unpack_connect connect_payload headed
  unpack_connect-connect_payload host port back small =
      let p = connect_payload encode host port in
      rw
        (
          read_i32le-first port (encode host) small,
          subarray_from-stands p 4 (encode host) (StandsFrom-i32 p 0 port (encode host) refl),
          back,
        )
        refl

module _ (encode : Text → Bytes) (decode : Bytes → Text) (opts : Options) (kids : Stack)
    (path to : Text) (back : decode (encode path) ≡ path) (to_back : decode (encode to) ≡ to)
    (fits : Fits (encode path)) where
  -- Where writing is granted: a write, a new directory, a removal and a rename are asked of the runtime with the bytes and
  -- the flag that the program gave, at the paths that it gave as they are meant from its directory; and where the network
  -- is granted, a connection, to the address and the port that it gave. The decoder must read back what the encoder writes
  -- of the two texts, the first text be shorter than 2^31 bytes, and the port an integer of 32 bits.
  pub serve-arrives :
      (body : Bytes) (on : Bool) (port : ℤ)
      → may_write opts ≡ true
      → opts.net ≡ true
      → IsInt32 port
      → (serve encode decode opts kids write_file (write_file_payload encode path body)
          ≡ some (calls (writes_file (place opts kids path) body)))
        × (serve encode decode opts kids mkdir (flagged encode on path)
            ≡ some (calls (makes_dir (place opts kids path) on)))
        × (serve encode decode opts kids remove (flagged encode on path)
            ≡ some (calls (removes (place opts kids path) on)))
        × (serve encode decode opts kids rename (two_paths encode path to)
            ≡ some (calls (renames (place opts kids path) (place opts kids to))))
        × (serve encode decode opts kids connect (connect_payload encode path port)
            ≡ some (calls (connects path port)))
  unfolding serve on_write_file on_mkdir on_remove on_rename on_connect when_writable when_online
  serve-arrives body on port writable online small = (
    rw (writable, unpack_write_file-payload encode decode path body back fits) refl,
    rw (writable, unpack_flagged-flagged encode decode on path back) refl,
    rw (writable, unpack_flagged-flagged encode decode on path back) refl,
    rw (writable, unpack_rename-two_paths encode decode path to back to_back fits) refl,
    rw (online, unpack_connect-connect_payload encode decode path port back small) refl,
  )
