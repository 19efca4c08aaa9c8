-- ===== src/Startup/Cpus.antt =====
-- Which CPUs the threads of the backend run on: `get_cpu_list_with_socket_index` and
-- `get_cpu_list_by_socket` of server/backend/net_utils.hpp, `cpu_list_on_node` of
-- server/backend/main.cpp. The sockets of the CPUs, which the code reads from /proc/cpuinfo, are an
-- argument. `none` is a failed `assert`, a vector read out of range, or the maximum of nothing.
pub mod Choice
use mathlib.Core.List.{reverse}
use clean_slate_inc.Prelude.{
  ℕ, zero, suc, ◌+◌, ◌≡◌, Bool, true, false, not, ◌&&◌, Option, none, some, List, [], ◌∷◌, ◌++◌,
  ◌>>=◌, ◌>>◌, assert, ◌==◌, max, if◌then◌else◌, ltb, leb, length, take, get_elem?,
}
use clean_slate_inc.Prelude.Int.{ℤ, pos, negsuc, ltb_ℤ}

-- `*max_element`
unfoldable pub max_element : List ℕ → Option ℕ
max_element [] = none
max_element (x ∷ xs) = elim (max_element xs) [ none ↦ some x | some m ↦ some (max x m) ]

-- `cpu_list.resize(n)` of an empty vector
unfoldable pub empty_lists : ℕ → List (List ℕ)
empty_lists zero = []
empty_lists (suc n) = [] ∷ empty_lists n

-- `cpu_list[socket].push_back(cpu)`
unfoldable pub push_cpu : ℕ → ℕ → List (List ℕ) → Option (List (List ℕ))
push_cpu socket cpu [] = none
push_cpu zero cpu (l ∷ ls) = some ((l ++ cpu ∷ []) ∷ ls)
push_cpu (suc socket) cpu (l ∷ ls) = do ls' ← push_cpu socket cpu ls; some (l ∷ ls')

-- The loop over the CPUs, from `cpu` on.
unfoldable pub fill_from : ℕ → List ℕ → List (List ℕ) → Option (List (List ℕ))
fill_from cpu [] ls = some ls
fill_from cpu (socket ∷ sockets) ls = do
  ls' ← push_cpu socket cpu ls
  fill_from (cpu + 1) sockets ls'

unfoldable pub get_cpu_list_with_socket_index : List ℕ → Option (List (List ℕ))
get_cpu_list_with_socket_index sockets = do
  m ← max_element sockets
  fill_from 0 sockets (empty_lists (1 + m))

unfoldable pub get_cpu_list_by_socket : List ℕ → ℤ → Option (List ℕ)
get_cpu_list_by_socket sockets socket = get_cpu_list_with_socket_index sockets >>= λ cpu_list.
    elim socket [
      | negsuc n ↦ some []
      | pos s ↦ if leb (length cpu_list) s then some [] else get_elem? cpu_list s
    ]

unfoldable pub cpu_list_on_node : List ℕ → ℤ → ℤ → Option (List ℕ)
cpu_list_on_node sockets node thread_cnt = get_cpu_list_by_socket sockets node >>= λ cpu_list.
    assert (ltb 0 (length cpu_list)) >> elim thread_cnt [
      | negsuc n ↦ none
      | pos k ↦ assert (leb k (length cpu_list) && ltb 0 k) >> some (take k (reverse cpu_list))
    ]
