-- ===== src/Main/Address.antt =====
-- What `splitListenAddr` takes for an address, and that it finds its two parts.
use mathlib.Core.Path.{subst}
use chassis_host.Common.{
  ℕ, zero, suc, ◌<◌, ◌≡◌, refl, sym, ap, ap₂, ◌∙◌, Option, none, some, List, [], ◌∷◌, ◌++◌, length,
  length-append, take, drop, arith,
}
use chassis_host.Common.Int.{ℤ, pos, negsuc}
use chassis_host.Main.{rfind_colon, colon_later, port_of, split_at_colon, split_listen_addr}

-- No character of the text is a ':'.
abbrev pub ColonFree : List ℕ → Type 0
ColonFree [] = Unit {0}
ColonFree (c ∷ cs) = ¬ (c ≡ 58) × ColonFree cs

-- An address "ip:port", split at its last ':', with something on either side and a port of 16 bits.
abbrev pub IsAddress : (List ℕ → ℤ) → List ℕ → List ℕ → ℕ → Type 0
IsAddress atoi addr ip port =
    (text : List ℕ) × ((addr ≡ ip ++ (58 ∷ text))
      × (ColonFree text
          × ((0 < length text)
              × ((atoi text ≡ pos port) × ((0 < length ip) × ((0 < port) × (port < 65536)))))))

later-some : (c : ℕ) (o : Option ℕ) (n : ℕ) → colon_later c o ≡ some (suc n) → o ≡ some n
later-some c none n h = absurd (ground (arith, h))
later-some c (some m) n h = ground (arith, h)

later-zero : (c : ℕ) (o : Option ℕ) → colon_later c o ≡ some 0 → (c ≡ 58) × (o ≡ none)
later-zero c none h = (ground (arith, h), refl)
later-zero c (some m) h = absurd (ground (arith, h))

later-none : (c : ℕ) (o : Option ℕ) → colon_later c o ≡ none → ¬ (c ≡ 58) × (o ≡ none)
later-none c none h = (ground (arith, h), refl)
later-none c (some m) h = absurd (ground (arith, h))

rfind_colon-ColonFree : (text : List ℕ) → rfind_colon text ≡ none → ColonFree text
rfind_colon-ColonFree [] h = tt
rfind_colon-ColonFree (c ∷ cs) h =
    let (other, later) = later-none c (rfind_colon cs) h in (other, rfind_colon-ColonFree cs later)

rfind_colon-split :
    (addr : List ℕ) (n : ℕ)
    → rfind_colon addr ≡ some n
    → (addr ≡ take n addr ++ (58 ∷ drop (suc n) addr))
      × (length (take n addr) ≡ n)
      × ColonFree (drop (suc n) addr)
rfind_colon-split [] n h = absurd (ground (arith, h))
rfind_colon-split (c ∷ cs) zero h =
    let (colon, later) = later-zero c (rfind_colon cs) h in
    (ap (λ d. d ∷ cs) colon, refl, rfind_colon-ColonFree cs later)
rfind_colon-split (c ∷ cs) (suc n) h =
    let (e, len, free) = rfind_colon-split cs n (later-some c (rfind_colon cs) n h) in
    (ap (λ l. c ∷ l) e, ap suc len, free)

port_of-some :
    (ip : List ℕ) (z : ℤ) (ip' : List ℕ) (port : ℕ)
    → port_of ip z ≡ some (ip', port)
    → (ip' ≡ ip) × ((z ≡ pos port) × ((0 < port) × (port < 65536)))
port_of-some ip (negsuc n) ip' port h = absurd (ground (arith, h))
port_of-some ip (pos p) ip' port h = ground (arith, h)

split_at_colon-IsAddress :
    (atoi : List ℕ → ℤ) (addr : List ℕ) (o : Option ℕ) (ip : List ℕ) (port : ℕ)
    → rfind_colon addr ≡ o
    → split_at_colon atoi addr o ≡ some (ip, port)
    → IsAddress atoi addr ip port
split_at_colon-IsAddress atoi addr none ip port found h = absurd (ground (arith, h))
split_at_colon-IsAddress atoi addr (some n) ip port found h =
    let (e, len, free) = rfind_colon-split addr n found in
    let text : List ℕ = drop (suc n) addr in
    let inner : port_of (take n addr) (atoi text) ≡ some (ip, port) = ground (arith, h) in
    let (same, (read, (low, high))) = port_of-some (take n addr) (atoi text) ip port inner in
    let pos_n : 0 < n = ground (arith, h) in
    let total = ap length e ∙ length-append (take n addr) (58 ∷ text) in
    let short : ¬ (suc n ≡ length addr) = ground (arith, h) in
    (
      text,
      (
        e ∙ ap (λ l. l ++ (58 ∷ text)) (sym same),
        (
          free,
          (
            omega (arith, short, len, total),
            (read, (omega (arith, pos_n, len, ap length same), (low, high))),
          ),
        ),
      ),
    )

-- An address that is found is one.
pub split_listen_addr-IsAddress :
    (atoi : List ℕ → ℤ) (addr ip : List ℕ) (port : ℕ)
    → split_listen_addr atoi addr ≡ some (ip, port)
    → IsAddress atoi addr ip port
unfolding split_listen_addr
split_listen_addr-IsAddress atoi addr ip port h =
    split_at_colon-IsAddress atoi addr (rfind_colon addr) ip port refl h

ColonFree-rfind_colon : (text : List ℕ) → ColonFree text → rfind_colon text ≡ none
ColonFree-rfind_colon [] h = refl
ColonFree-rfind_colon (c ∷ cs) h = rw (ColonFree-rfind_colon cs h.1) (ground (arith, h.0))

rfind_colon-last :
    (ip text : List ℕ) → ColonFree text → rfind_colon (ip ++ (58 ∷ text)) ≡ some (length ip)
rfind_colon-last [] text h = rw (ColonFree-rfind_colon text h) refl
rfind_colon-last (c ∷ cs) text h = rw (rfind_colon-last cs text h) refl

take_front : (xs ys : List ℕ) → take (length xs) (xs ++ ys) ≡ xs
take_front [] ys = refl
take_front (x ∷ xs) ys = ap (λ l. x ∷ l) (take_front xs ys)

drop_front : (xs ys : List ℕ) (y : ℕ) → drop (suc (length xs)) (xs ++ (y ∷ ys)) ≡ ys
drop_front [] ys y = refl
drop_front (x ∷ xs) ys y = drop_front xs ys y

split_inside :
    (atoi : List ℕ → ℤ) (addr : List ℕ) (n : ℕ)
    → 0 < n
    → suc n < length addr
    → split_at_colon atoi addr (some n) ≡ port_of (take n addr) (atoi (drop (suc n) addr))
split_inside atoi addr n low high = ground arith

port_of-good : (ip : List ℕ) (p : ℕ) → 0 < p → p < 65536 → port_of ip (pos p) ≡ some (ip, p)
port_of-good ip p low high = ground arith

-- An address is found.
pub IsAddress-split_listen_addr :
    (atoi : List ℕ → ℤ) (addr ip : List ℕ) (port : ℕ)
    → IsAddress atoi addr ip port
    → split_listen_addr atoi addr ≡ some (ip, port)
unfolding split_listen_addr
IsAddress-split_listen_addr atoi addr ip port
      (text, (e, (free, (more, (read, (some_ip, (low, high))))))) =
    subst (λ a. split_at_colon atoi a (rfind_colon a) ≡ some (ip, port)) (sym e)
      (ap (split_at_colon atoi (ip ++ (58 ∷ text))) (rfind_colon-last ip text free)
        ∙ split_inside atoi (ip ++ (58 ∷ text)) (length ip) some_ip
            (omega (arith, length-append ip (58 ∷ text), more))
        ∙ ap₂ port_of (take_front ip (58 ∷ text)) (ap atoi (drop_front ip text 58) ∙ read)
        ∙ port_of-good ip port low high)
