-- ===== src/Startup/Cpus/Choice.antt =====
-- The threads of the backend get the last CPUs of the NIC's node: server/backend/main.cpp.
use mathlib.Core.List.{reverse}
use clean_slate_inc.Prelude.{
  ℕ, zero, suc, ◌+◌, ◌≡◌, ◌≤◌, ◌<◌, inl, inr, refl, sym, ap, subst, ◌>>◌, assert, ◌∙◌, ◌&&◌, none,
  some, List, [], ◌∷◌, ◌++◌, ◌==◌, max, if◌then◌else◌, ltb, leb, length, take, get_elem?, arith,
  append-nil, append_assoc, Bool-cases,
}
use clean_slate_inc.Prelude.Int.{pos}
use clean_slate_inc.Startup.Cpus.{
  max_element, empty_lists, push_cpu, fill_from, get_cpu_list_with_socket_index,
  get_cpu_list_by_socket, cpu_list_on_node,
}

-- The numbers, from `cpu` on, of the CPUs on `socket`.
abbrev pub cpus_of : ℕ → ℕ → List ℕ → List ℕ
cpus_of socket cpu [] = []
cpus_of socket cpu (s ∷ sockets) =
    (if s == socket then cpu ∷ [] else []) ++ cpus_of socket (cpu + 1) sockets

abbrev list_at : List (List ℕ) → ℕ → List ℕ
list_at [] s = []
list_at (l ∷ ls) zero = l
list_at (l ∷ ls) (suc s) = list_at ls s

get_elem?-list_at :
    (ls : List (List ℕ)) (s : ℕ) → s < length ls → get_elem? ls s ≡ some (list_at ls s)
get_elem?-list_at [] s h = absurd (omega arith)
get_elem?-list_at (l ∷ ls) zero h = refl
get_elem?-list_at (l ∷ ls) (suc s) h = get_elem?-list_at ls s (omega arith)

list_at-empty : (n s : ℕ) → (list_at (empty_lists n) s ≡ []) × (length (empty_lists n) ≡ n)
unfolding empty_lists
list_at-empty zero s = (refl, refl)
list_at-empty (suc n) zero = (refl, ap suc (list_at-empty n 0).1)
list_at-empty (suc n) (suc s) = ((list_at-empty n s).0, ap suc (list_at-empty n s).1)

push_cpu_lem :
    (socket cpu : ℕ) (ls : List (List ℕ))
    → socket < length ls
    → (ls' : List (List ℕ)) × (push_cpu socket cpu ls ≡ some ls')
      × (length ls' ≡ length ls)
      × ((s : ℕ) → list_at ls' s ≡ list_at ls s ++ (if socket == s then cpu ∷ [] else []))
unfolding push_cpu
push_cpu_lem socket cpu [] h = absurd (omega arith)
push_cpu_lem zero cpu (l ∷ ls) h = ((l ++ cpu ∷ []) ∷ ls, refl, refl, at)
  where
    at :
        (s : ℕ)
        → list_at ((l ++ cpu ∷ []) ∷ ls) s ≡ list_at (l ∷ ls) s ++ (if 0 == s then cpu ∷ [] else [])
    at zero = refl
    at (suc s) = ground (arith, append-nil (list_at ls s))
push_cpu_lem (suc socket) cpu (l ∷ ls) h =
    let (ls', e, len, rest) = push_cpu_lem socket cpu ls (omega arith) in
    (l ∷ ls', rw e refl, ap suc len, at ls' rest)
  where
    at :
        (ls' : List (List ℕ))
        → ((s : ℕ) → list_at ls' s ≡ list_at ls s ++ (if socket == s then cpu ∷ [] else []))
        → (s : ℕ)
        → list_at (l ∷ ls') s ≡ list_at (l ∷ ls) s ++ (if suc socket == s then cpu ∷ [] else [])
    at ls' rest zero = ground (arith, append-nil l)
    at ls' rest (suc s) = ground (arith, rest s)

abbrev Below : ℕ → List ℕ → Type 0
Below n [] = Unit
Below n (s ∷ sockets) = (s < n) × Below n sockets

fill_from_lem :
    (cpu : ℕ) (sockets : List ℕ) (ls : List (List ℕ))
    → Below (length ls) sockets
    → (ls' : List (List ℕ)) × (fill_from cpu sockets ls ≡ some ls')
      × (length ls' ≡ length ls)
      × ((s : ℕ) → list_at ls' s ≡ list_at ls s ++ cpus_of s cpu sockets)
unfolding fill_from
fill_from_lem cpu [] ls b = (ls, refl, refl, λ s. sym (append-nil (list_at ls s)))
fill_from_lem cpu (socket ∷ sockets) ls b =
    let (ls', e, len, one) = push_cpu_lem socket cpu ls b.0 in
    let (ls'', e', len', rest) = fill_from_lem (cpu + 1) sockets ls' (rw len b.1) in
    (
      ls'',
      rw e e',
      len' ∙ len,
      λ s.
          rest s
          ∙ ap (λ l. l ++ cpus_of s (cpu + 1) sockets) (one s)
          ∙ append_assoc (list_at ls s) (if socket == s then cpu ∷ [] else [])
              (cpus_of s (cpu + 1) sockets),
    )

list_at-out : (ls : List (List ℕ)) (s : ℕ) → length ls ≤ s → list_at ls s ≡ []
list_at-out [] s h = refl
list_at-out (l ∷ ls) zero h = absurd (omega arith)
list_at-out (l ∷ ls) (suc s) h = list_at-out ls s (omega arith)

Below-mono : (m n : ℕ) (sockets : List ℕ) → m ≤ n → Below m sockets → Below n sockets
Below-mono m n [] h b = tt
Below-mono m n (s ∷ sockets) h b = (omega (arith, b.0), Below-mono m n sockets h b.1)

max_element-Below :
    (x : ℕ) (xs : List ℕ) → (m : ℕ) × (max_element (x ∷ xs) ≡ some m) × Below (1 + m) (x ∷ xs)
unfolding max_element
max_element-Below x [] = (x, refl, (omega arith, tt))
max_element-Below x (y ∷ ys) =
    let (m, e, b) = max_element-Below y ys in
    (
      max x m,
      rw (max_element, e) refl,
      (omega arith, (omega (arith, b.0), Below-mono (1 + m) (1 + max x m) ys (omega arith) b.1)),
    )

by_socket :
    (x : ℕ) (xs : List ℕ) (s : ℕ)
    → get_cpu_list_by_socket (x ∷ xs) (pos s) ≡ some (cpus_of s 0 (x ∷ xs))
unfolding get_cpu_list_by_socket get_cpu_list_with_socket_index
by_socket x xs s =
    let (m, e, below) = max_element-Below x xs in
    let len = (list_at-empty (1 + m) s).1 in
    let (ls, filled, same, at) =
      fill_from_lem 0 (x ∷ xs) (empty_lists (1 + m))
        (subst (λ n. Below n (x ∷ xs)) (sym len) below) in
    let here : list_at ls s ≡ cpus_of s 0 (x ∷ xs) =
      at s ∙ ap (λ l. l ++ cpus_of s 0 (x ∷ xs)) (list_at-empty (1 + m) s).0 in
    rw (e, filled)
      (elim (Bool-cases (leb (length ls) s)) [
        | inl out ↦ rw out (ap some (sym (list_at-out ls s (ground arith)) ∙ here))
        | inr inside ↦ rw inside (get_elem?-list_at ls s (ground arith) ∙ ap some here)
      ])

guarded :
    (l : List ℕ) (k : ℕ)
    → (assert (ltb 0 (length l))
        >> (assert (leb k (length l) && ltb 0 k) >> some (take k (reverse l))))
      ≡ (if leb k (length l) && ltb 0 k then some (take k (reverse l)) else none)
guarded l k = ground arith

-- With at least one CPU in /proc/cpuinfo: `cpu_list_on_node` gives the last `k` CPUs of the node, the
-- highest first, if the node has so many and `k` is not 0, and otherwise fails an assertion.
pub cpu_list_on_node_lem :
    (x : ℕ) (xs : List ℕ) (node k : ℕ)
    → let cpus = cpus_of node 0 (x ∷ xs) in
      cpu_list_on_node (x ∷ xs) (pos node) (pos k)
      ≡ (if leb k (length cpus) && ltb 0 k then some (take k (reverse cpus)) else none)
unfolding cpu_list_on_node
cpu_list_on_node_lem x xs node k = rw (by_socket x xs node) (guarded (cpus_of node 0 (x ∷ xs)) k)
