-- ===== src/PosixIoEngine.antt =====
-- src/io/posix_io_engine.cpp: the loops of `read` and `append` around the system calls, which are
-- parameters. What a call does may differ from one call to the next, so it is asked by its number.
pub mod Transfer
mod Tests
use enigma.Prelude.{
  ℕ, zero, suc, ◌+◌, ◌-◌, Bool, true, false, Option, none, some, List, [], ◌∷◌, ◌++◌, length, take,
  drop, ltb, String, if◌then◌else◌,
}
use enigma.Error.{Result, ok, err, error, read_err, write_err, file_descriptor_err}

-- What `pread` returns: the bytes that it read, or -1 with `errno`, which is `EINTR` or has a message.
pub data Preading : Type 0 where
  bytes_read : List ℕ → Preading
  interrupted : Preading
  failed : String → Preading

-- The number of the call, `count` and `offset`.
abbrev pub Pread : Type 0
Pread = ℕ → ℕ → ℕ → Preading

-- The loop's body after `pread`: once more, an error, the end of the file, or more bytes.
abbrev pub after_pread :
    Preading
    → List ℕ
    → Option (Result (List ℕ))
    → (List ℕ → Option (Result (List ℕ)))
    → Option (Result (List ℕ))
after_pread interrupted got again more = again
after_pread (failed message) got again more = some (err (error read_err message))
after_pread (bytes_read []) got again more = some (ok got)
after_pread (bytes_read (b ∷ bs)) got again more = more (got ++ (b ∷ bs))

-- `while (bytes_read < count)`, with the bytes read so far; `none` means that the fuel ran out.
unfoldable pub read_loop : ℕ → Pread → ℕ → ℕ → ℕ → List ℕ → Option (Result (List ℕ))
read_loop zero pread call count offset got = none
read_loop (suc fuel) pread call count offset got =
    let again = read_loop fuel pread (call + 1) count offset got in
    if ltb (length got) count
    then after_pread (pread call (count - length got) (offset + length got)) got again
        (read_loop fuel pread (call + 1) count offset)
    else some (ok got)

-- `PosixIOEngine::read` on a handle whose descriptor is `-1` or not: the bytes put into the buffer.
unfoldable pub read : ℕ → Bool → Pread → ℕ → ℕ → Option (Result (List ℕ))
unfolding read_loop
read fuel invalid pread count offset =
    if invalid
    then some (err (error file_descriptor_err "invalid file descriptor"))
    else read_loop fuel pread 0 count offset []

-- What `write` returns: how many bytes it wrote, or -1 with `errno`.
pub data Writing : Type 0 where
  bytes_written : ℕ → Writing
  interrupted : Writing
  failed : String → Writing

-- The number of the call, and the count.
abbrev pub WriteCall : Type 0
WriteCall = ℕ → ℕ → Writing

-- The loop's body after `write`: once more, an error, or so many bytes further on.
abbrev pub after_write :
    Writing
    → List ℕ
    → Option (List ℕ × Result ℕ)
    → (ℕ → Option (List ℕ × Result ℕ))
    → Option (List ℕ × Result ℕ)
after_write interrupted file again more = again
after_write (failed message) file again more = some (file, err (error write_err message))
after_write (bytes_written n) file again more = more n

-- `while (bytes_written < length)` on the bytes that are left, with the file; the file and the result.
unfoldable pub append_loop : ℕ → WriteCall → ℕ → List ℕ → ℕ → List ℕ → Option (List ℕ × Result ℕ)
append_loop zero write call file written left = none
append_loop (suc fuel) write call file written [] = some (file, ok written)
append_loop (suc fuel) write call file written (b ∷ bs) =
    let left = b ∷ bs in
    after_write (write call (length left)) file
      (append_loop fuel write (call + 1) file written left)
      (λ n. append_loop fuel write (call + 1) (file ++ take n left) (written + n) (drop n left))

-- `PosixIOEngine::append`, for a file that was opened for appending.
unfoldable pub append : ℕ → Bool → WriteCall → List ℕ → List ℕ → Option (List ℕ × Result ℕ)
unfolding append_loop
append fuel invalid write file buffer =
    if invalid
    then some (file, err (error file_descriptor_err "invalid file descriptor"))
    else append_loop fuel write 0 file 0 buffer
