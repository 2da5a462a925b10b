-- ===== src/Loader/Tests.antt =====
-- The loader over a machine with one cell.
use ckb_js.Prelude.{ℕ, ◌≡◌, ◌↔◌, refl, List, [], ◌∷◌}
use ckb_js.Prelude.Int.{negsuc}
use ckb_js.Loader.{ok, failed, CodeInfo, load_cell_code_info}
use ckb_js.Loader.Locate.{IsNamed, load_cell_code_info_iff}
use ckb_js.Fixtures.{chain, item, served-IsPartialLoad}

abbrev program : List ℕ
program = 49 ∷ 43 ∷ 49 ∷ []

abbrev program_info : CodeInfo
program_info = record { buf_size = 3; index = 4 }

program_found : load_cell_code_info (chain program) ≡ ok program_info
unfolding load_cell_code_info
program_found = refl

-- A cell without data is refused.
empty_refused : load_cell_code_info (chain []) ≡ failed (negsuc 0)
unfolding load_cell_code_info
empty_refused = refl

load_cell_code_info_iff_example :
    (load_cell_code_info (chain program) ≡ ok program_info)
    ↔ IsNamed (chain program) (item program) program_info
load_cell_code_info_iff_example =
    load_cell_code_info_iff (chain program) (served-IsPartialLoad program) program_info
