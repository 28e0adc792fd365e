-- ===== src/Examples/Storage.antt =====
-- A disk that is computed from the calls, and ShredFile on it.
use drover_runner.Base.{
  some, Text, lit, ℕ, zero, suc, take, length, length-take, true, ◌≡◌, refl, [], ◌∷◌, none, Option,
  arith, ap,
}
use drover_runner.Host.{ok, Host, Log, Call, Error, write_zeroes, file_size, put, read_full}
use drover_runner.Storage.Success.{shred_file-succeeds}
use drover_runner.Storage.{ShredRecord, zero_loop, shred_file}
use drover_runner.Storage.Zeroing.{IsDisk, is_quiet, overwrite, Zeroed, zero_loop-Zeroed}
use drover_runner.Storage.Shredding.{Shredded, shred_file-Shredded}
use drover_runner.Examples.Hosts.{checksum}

abbrev secret : Text
secret = lit "token=42"

abbrev step : Call → Option Error → Text → Text
step (write_zeroes p o n) none c = overwrite o n c
step _ _ c = c

abbrev pub disk : Log → Text
disk [] = secret
disk (e ∷ l) = step e.call e.fault (disk l)

abbrev disk_number : Log → Call → ℕ
disk_number l (file_size p) = length (disk l)
disk_number l (write_zeroes p o n) = n
disk_number l (put p q b) = 204
disk_number l _ = 0

abbrev disk_bytes : Log → Call → Text
disk_bytes l (read_full p n) = take n (disk l)
disk_bytes l _ = []

abbrev pub disk_host : Host
disk_host = record {
  fault = λ l c. none;
  number = disk_number;
  bytes = disk_bytes;
  chunks = λ l args. [];
}

take-length-take : (n : ℕ) (c : Text) → take n c ≡ take (length (take n c)) c
take-length-take zero c = refl
take-length-take (suc n) [] = refl
take-length-take (suc n) (b ∷ c) = ap (λ t. b ∷ t) (take-length-take n c)

step-quiet : (c : Call) (f : Option Error) (t : Text) → is_quiet c ≡ true → step c f t ≡ t
step-quiet c f t q = ground arith

pub disk_host-IsDisk : (path : Text) → IsDisk disk_host path disk
disk_host-IsDisk path = record {
  sized = λ l good. refl;
  full_write = λ l o n good. refl;
  written = λ l o n good. refl;
  quiet = λ l c f q. step-quiet c f (disk l) q;
  read_prefix = λ l n. take-length-take n (disk l);
  read_bound = λ l n. omega (arith, length-take n (disk l));
}

zero_loop-Zeroed_example : Zeroed disk 8 (zero_loop disk_host 9 (lit "overlay") 8 0 [])
unfolding lit
zero_loop-Zeroed_example =
    zero_loop-Zeroed disk_host (lit "overlay") disk (disk_host-IsDisk (lit "overlay")) 9 8 0 secret
      [] refl refl (omega arith)

shred_file-Shredded_example :
    Shredded disk_host
      (lit "overlay")
      disk
      (disk_host-IsDisk (lit "overlay"))
      checksum
      []
      (shred_file disk_host checksum (lit "overlay") [])
shred_file-Shredded_example =
    shred_file-Shredded disk_host (lit "overlay") disk (disk_host-IsDisk (lit "overlay")) checksum
      []

shred_file-succeeds_example :
    (r : ShredRecord) × ((shred_file disk_host checksum (lit "overlay") []).0 ≡ ok (some r))
shred_file-succeeds_example =
    shred_file-succeeds disk_host (lit "overlay") disk (disk_host-IsDisk (lit "overlay"))
      (λ l c. refl) checksum []
