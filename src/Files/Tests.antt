-- ===== src/Files/Tests.antt =====
-- src/os/unix/ngx_files.c: the theorem at a file of five bytes, of which a call reads at most two.
use nginx_inside_out.Prelude.{ℕ, zero, suc, ◌≡◌, ◌≤◌, refl, [], ◌∷◌, some, arith, take, length}
use nginx_inside_out.Str.Num.{Bytes}
use nginx_inside_out.Files.{File, Pread, got, drop, IsRow, read_file, read_twice, read_file-IsRow}

abbrev content : Bytes
content = b'n' ∷ b'g' ∷ b'i' ∷ b'n' ∷ b'x' ∷ []

abbrev file : File
file = record { fd = 3; offset = 1 }

-- at most two bytes
abbrev few : (size : ℕ) → Bytes → Bytes
few zero s = []
few (suc size) [] = []
few (suc zero) (c ∷ s) = c ∷ []
few (suc (suc size)) (c ∷ []) = c ∷ []
few (suc (suc size)) (c ∷ d ∷ s) = c ∷ d ∷ []

few-take :
    (size : ℕ) (s : Bytes)
    → (length (few size s) ≤ size) × (few size s ≡ take (length (few size s)) s)
few-take zero s = (omega arith, refl)
few-take (suc size) [] = (omega arith, refl)
few-take (suc zero) (c ∷ s) = (omega arith, refl)
few-take (suc (suc size)) (c ∷ []) = (omega arith, refl)
few-take (suc (suc size)) (c ∷ d ∷ s) = (omega arith, refl)

abbrev pread : Pread
pread fd size offset = some (few size (drop offset content))

read :
    read_twice pread file 4 9
    ≡ (got (b'g' ∷ b'i' ∷ b'n' ∷ b'x' ∷ []), record { fd = 3; offset = 5 })
unfolding read_file
read = refl

read_file-IsRow_example : IsRow content file 4 9 (read_twice pread file 4 9)
read_file-IsRow_example =
    read_file-IsRow pread file content 4 9 (λ size offset. few-take size (drop offset content))
      (omega arith) (omega arith)
