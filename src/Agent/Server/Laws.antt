-- ===== src/Agent/Server/Laws.antt =====
-- The debug flags after a request, and what a request for them reports.
use mathlib.Core.Path.{fun_ext}
use esnet_smartnic_fw.Base.{
  ℕ, zero, suc, ◌+◌, ◌≡◌, ◌≤◌, refl, ap, ◌∙◌, inl, inr, Bool, true, false, not, ◌&&◌, ◌||◌, List,
  [], ◌∷◌, ◌++◌, some, ltb, leb, ◌==◌, if◌then◌else◌, All, arith, Bool-cases,
}
use esnet_smartnic_fw.Base.Int.{ℤ, pos, negsuc}
use esnet_smartnic_fw.Agent.Errors.{ErrorCode}
use esnet_smartnic_fw.Agent.Server.{
  is_valid, flag_max, ServerDebug, debug_loop, enable, disable, set_flag, flags_loop, disables_loop,
  config_error, set_flags,
}

-- Whether a flag is in a list.
pub mem : ℕ → List ℤ → Bool
mem n [] = false
mem n (pos f ∷ fs) = (n == f) || mem n fs
mem n (negsuc f ∷ fs) = mem n fs

-- The values that the enumeration names.
abbrev pub IsFlag : ℤ → Type 0
IsFlag (pos f) = is_valid f ≡ true
IsFlag (negsuc n) = ⊥

abbrev pub after : Bool → List ℤ → (ℕ → Bool) → ℕ → Bool
after value fs flags n = if mem n fs then value else flags n

after-∷ :
    (value : Bool) (f : ℕ) (fs : List ℤ) (flags : ℕ → Bool) (n : ℕ)
    → after value fs (set_flag flags f value) n ≡ after value (pos f ∷ fs) flags n
unfolding set_flag mem
after-∷ value f fs flags n = elim (Bool-cases (mem n fs)) [
  | inl e ↦ ground arith
  | inr e ↦ ground arith
]

-- A loop over flags that the enumeration names sets them all and no other.
flags_loop-after :
    (value : Bool) (fs : List ℤ) (flags : ℕ → Bool)
    → All IsFlag fs
    → flags_loop value fs flags ≡ (true, after value fs flags)
unfolding flags_loop mem
flags_loop-after value [] flags h = refl
flags_loop-after value (negsuc n ∷ fs) flags (h, hs) = absurd h
flags_loop-after value (pos f ∷ fs) flags (h, hs) =
    ap (λ b. if b then flags_loop value fs (set_flag flags f value) else (false, flags)) h
    ∙ flags_loop-after value fs (set_flag flags f value) hs
    ∙ ap (λ g. (true, g)) (fun_ext (after-∷ value f fs flags))

-- A loop that meets a value that the enumeration does not name ends there, with the flags before it
-- changed.
flags_loop-stops :
    (value : Bool) (fs gs : List ℤ) (bad : ℤ) (flags : ℕ → Bool)
    → All IsFlag fs
    → (IsFlag bad → ⊥)
    → flags_loop value (fs ++ bad ∷ gs) flags ≡ (false, after value fs flags)
unfolding flags_loop mem
flags_loop-stops value [] gs (pos f) flags h ne = elim (Bool-cases (is_valid f)) [
  | inl e ↦ absurd (ne e)
  | inr e ↦ ap (λ b. if b then flags_loop value gs (set_flag flags f value) else (false, flags)) e
]
flags_loop-stops value [] gs (negsuc n) flags h ne = refl
flags_loop-stops value (negsuc n ∷ fs) gs bad flags (h, hs) ne = absurd h
flags_loop-stops value (pos f ∷ fs) gs bad flags (h, hs) ne =
    ap
      (λ b.
        if b then flags_loop value (fs ++ bad ∷ gs) (set_flag flags f value) else (false, flags))
      h
    ∙ flags_loop-stops value fs gs bad (set_flag flags f value) hs ne
    ∙ ap (λ g. (false, g)) (fun_ext (after-∷ value f fs flags))

-- A request whose flags the enumeration names answers EC_OK; then a flag that it disables is off,
-- else one that it enables is on, and every other is as before.
pub set_flags-after :
    (dbg : ServerDebug) (flags : ℕ → Bool)
    → All IsFlag dbg.enables
    → All IsFlag dbg.disables
    → set_flags (some dbg) flags ≡ (
      ErrorCode.ok,
      λ n. if mem n dbg.disables then false else if mem n dbg.enables then true else flags n,
    )
unfolding set_flags disables_loop config_error
set_flags-after dbg flags h k =
    ap (finish_config dbg.disables) (flags_loop-after true dbg.enables flags h)
    ∙ ap close (flags_loop-after false dbg.disables (after true dbg.enables flags) k)
  where
    close : Bool × (ℕ → Bool) → ErrorCode × (ℕ → Bool)
    close (valid, g) = (config_error valid, g)

    finish_config : List ℤ → Bool × (ℕ → Bool) → ErrorCode × (ℕ → Bool)
    finish_config ds r = let (valid, g) = disables_loop ds r in (config_error valid, g)

-- A request that enables a value which the enumeration does not name answers the error for it; the
-- flags before it in the list stay enabled, and nothing is disabled.
pub set_flags-stops :
    (fs gs ds : List ℤ) (bad : ℤ) (flags : ℕ → Bool)
    → All IsFlag fs
    → (IsFlag bad → ⊥)
    → set_flags (some (record { enables = fs ++ bad ∷ gs; disables = ds })) flags
      ≡ (ErrorCode.server_invalid_debug_flag, λ n. if mem n fs then true else flags n)
unfolding set_flags disables_loop config_error
set_flags-stops fs gs ds bad flags h ne =
    ap (λ (r : Bool × (ℕ → Bool)). let (valid, g) = disables_loop ds r in (config_error valid, g))
      (flags_loop-stops true fs gs bad flags h ne)

-- One round of the loop of get_server_config.
abbrev round : Bool → Bool → ℕ → ServerDebug → ServerDebug
round v b flag rest =
    if v then if b then enable (pos flag) rest else disable (pos flag) rest else rest

round-enables :
    (v b : Bool) (flag : ℕ) (rest : ServerDebug) (n : ℕ)
    → mem n (round v b flag rest).enables ≡ ((v && b) && (n == flag)) || mem n rest.enables
unfolding mem
round-enables true true flag rest n = refl
round-enables true false flag rest n = refl
round-enables false b flag rest n = refl

round-disables :
    (v b : Bool) (flag : ℕ) (rest : ServerDebug) (n : ℕ)
    → mem n (round v b flag rest).disables ≡ ((v && not b) && (n == flag)) || mem n rest.disables
unfolding mem
round-disables true true flag rest n = refl
round-disables true false flag rest n = refl
round-disables false b flag rest n = refl

round-IsFlag :
    (v b : Bool) (flag : ℕ) (rest : ServerDebug)
    → is_valid flag ≡ v
    → All IsFlag rest.enables × All IsFlag rest.disables
    → All IsFlag (round v b flag rest).enables × All IsFlag (round v b flag rest).disables
round-IsFlag true true flag rest e (h, k) = ((e, h), k)
round-IsFlag true false flag rest e (h, k) = (h, (e, k))
round-IsFlag false b flag rest e (h, k) = (h, k)

next_flag :
    (p : ℕ → Bool) (flag rounds n : ℕ)
    → (p flag && (n == flag)) || (leb (flag + 1) n && ltb n (flag + 1 + rounds) && p n)
      ≡ (leb flag n && ltb n (flag + suc rounds) && p n)
next_flag p flag rounds n = elim (Bool-cases (n == flag)) [
  | inl same ↦ let e : n ≡ flag = ground arith in ground (arith, ap p e)
  | inr other ↦ elim (Bool-cases (p flag)) [ inl e ↦ ground arith | inr e ↦ ground arith ]
]

module _ (flags : ℕ → Bool) where
  debug_loop-enables :
      (rounds flag n : ℕ)
      → mem n (debug_loop flags rounds flag).enables
        ≡ (leb flag n && ltb n (flag + rounds) && (is_valid n && flags n))
  unfolding debug_loop mem
  debug_loop-enables zero flag n = ground arith
  debug_loop-enables (suc rounds) flag n =
      round-enables (is_valid flag) (flags flag) flag (debug_loop flags rounds (flag + 1)) n
      ∙ ap (λ b. ((is_valid flag && flags flag) && (n == flag)) || b)
          (debug_loop-enables rounds (flag + 1) n)
      ∙ next_flag (λ m. is_valid m && flags m) flag rounds n

  debug_loop-disables :
      (rounds flag n : ℕ)
      → mem n (debug_loop flags rounds flag).disables
        ≡ (leb flag n && ltb n (flag + rounds) && (is_valid n && not (flags n)))
  unfolding debug_loop mem
  debug_loop-disables zero flag n = ground arith
  debug_loop-disables (suc rounds) flag n =
      round-disables (is_valid flag) (flags flag) flag (debug_loop flags rounds (flag + 1)) n
      ∙ ap (λ b. ((is_valid flag && not (flags flag)) && (n == flag)) || b)
          (debug_loop-disables rounds (flag + 1) n)
      ∙ next_flag (λ m. is_valid m && not (flags m)) flag rounds n

  debug_loop-IsFlag :
      (rounds flag : ℕ)
      → All IsFlag (debug_loop flags rounds flag).enables
        × All IsFlag (debug_loop flags rounds flag).disables
  unfolding debug_loop
  debug_loop-IsFlag zero flag = (tt, tt)
  debug_loop-IsFlag (suc rounds) flag =
      round-IsFlag (is_valid flag) (flags flag) flag _ refl (debug_loop-IsFlag rounds (flag + 1))

  -- The flags that a request can see: those that the enumeration names, but for the unknown one.
  abbrev pub is_listed : ℕ → Bool
  is_listed n = not (n == 0) && is_valid n

  listed_range : (n : ℕ) → is_valid n ≡ true → (n ≤ 20)
  unfolding is_valid
  listed_range n e = ground arith

  in_range :
      (n : ℕ) (b : Bool)
      → (leb 1 n && ltb n (1 + flag_max) && (is_valid n && b)) ≡ (is_listed n && b)
  in_range n b = elim (Bool-cases (is_valid n)) [
    | inl e ↦ let le = listed_range n e in ground arith
    | inr e ↦ ground arith
  ]

  -- get_server_config lists each flag that the enumeration names, but for the unknown one, in
  -- exactly one of its two lists, by whether it is on, and lists no other.
  pub get-lists :
      (n : ℕ)
      → (mem n (debug_loop flags flag_max 1).enables ≡ (is_listed n && flags n))
        × (mem n (debug_loop flags flag_max 1).disables ≡ (is_listed n && not (flags n)))
  get-lists n = (
    debug_loop-enables flag_max 1 n ∙ in_range n (flags n),
    debug_loop-disables flag_max 1 n ∙ in_range n (not (flags n)),
  )

  -- What get_server_config reported can be set again later: set_server_config on it answers EC_OK
  -- and gives each listed flag the value it had, and leaves every other as it is by then.
  pub set_flags-get :
      (flags' : ℕ → Bool)
      → set_flags (some (debug_loop flags flag_max 1)) flags'
        ≡ (ErrorCode.ok, λ n. if is_listed n then flags n else flags' n)
  set_flags-get flags' =
      let (h, k) = debug_loop-IsFlag flag_max 1 in
      set_flags-after (debug_loop flags flag_max 1) flags' h k
      ∙ ap (λ g. (ErrorCode.ok, g)) (fun_ext λ n. restored n (get-lists n))
    where
      restored :
          (n : ℕ)
          → (mem n (debug_loop flags flag_max 1).enables ≡ (is_listed n && flags n))
            × (mem n (debug_loop flags flag_max 1).disables ≡ (is_listed n && not (flags n)))
          → (if mem n (debug_loop flags flag_max 1).disables
              then false
              else if mem n (debug_loop flags flag_max 1).enables
              then true
              else flags' n)
            ≡ (if is_listed n then flags n else flags' n)
      restored n (e, d) = elim (Bool-cases (flags n)) [
        | inl on ↦ ground arith
        | inr off ↦ ground arith
      ]
