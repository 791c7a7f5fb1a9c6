-- ===== src/Mux/Config.antt =====
-- mux/mux/src/lib.rs: the configuration and its builder.
use tlsn_utils.Base.{
  ℕ, ◌*◌, ◌≤◌, ◌≡◌, ◌⊎◌, inl, inr, Bool, true, false, Option, none, some, List, [], ◌∷◌, refl, ap,
  ◌∙◌, Bool-cases, ltb→lt, arith, ltb, min, max, usize_max, if◌then◌else◌, ◌<◌,
}

abbrev pub default_credit : ℕ
default_credit = 256 * 1024

-- `usize::saturating_mul`
abbrev pub saturating_mul : ℕ → ℕ → ℕ
saturating_mul a b = min (a * b) usize_max

pub record Config : Type 0 where
  pub max_connection_receive_window : Option ℕ
  pub max_num_streams : ℕ
  pub read_after_close : Bool
  pub split_send_size : ℕ
  pub close_sync : Bool
  pub keep_alive : Bool

unfoldable pub default_config : Config
default_config = record {
  max_connection_receive_window = some (1024 * 1024 * 1024);
  max_num_streams = 512;
  read_after_close = true;
  split_send_size = 16 * 1024;
  close_sync = false;
  keep_alive = false;
}

-- The setters of `ConfigBuilder`.
pub data Setting : Type 0 where
  max_connection_receive_window : Option ℕ → Setting
  max_num_streams : ℕ → Setting
  read_after_close : Bool → Setting
  split_send_size : ℕ → Setting
  close_sync : Bool → Setting
  keep_alive : Bool → Setting

unfoldable pub apply : Setting → Config → Config
apply (Setting.max_connection_receive_window n) c = record c { max_connection_receive_window = n }
apply (Setting.max_num_streams n) c = record c { max_num_streams = max n 1 }
apply (Setting.read_after_close b) c = record c { read_after_close = b }
apply (Setting.split_send_size n) c = record c { split_send_size = n }
apply (Setting.close_sync b) c = record c { close_sync = b }
apply (Setting.keep_alive b) c = record c { keep_alive = b }

-- A `ConfigBuilder` starts with the default configuration and takes settings in order.
unfoldable pub build_config : List Setting → Config → Config
build_config [] c = c
build_config (setting ∷ rest) c = build_config rest (apply setting c)

pub data Built : Type 0 where
  ok : Config → Built
  receive_window_too_small : ℕ → ℕ → ℕ → Built

abbrev check_window : Config → ℕ → Option ℕ → Built
check_window c min_required none = ok c
check_window c min_required (some window) =
    if ltb window min_required
    then receive_window_too_small window c.max_num_streams min_required
    else ok c

unfoldable pub build : Config → Built
build c =
    check_window c (saturating_mul c.max_num_streams default_credit) c.max_connection_receive_window

-- What `build` accepts: at least one stream, and a limit that gives every stream the default credit, or
-- the largest limit where the sum of those credits is past it.
pub record IsBuilt (c : Config) : Type 0 where
  pub one_stream : 1 ≤ c.max_num_streams
  pub room :
      (window : ℕ)
      → c.max_connection_receive_window ≡ some window
      → window ≤ usize_max
      → (c.max_num_streams * default_credit ≤ window)
        ⊎ ((window ≡ usize_max) × (usize_max < c.max_num_streams * default_credit))

apply-one_stream :
    (setting : Setting) (c : Config) → 1 ≤ c.max_num_streams → 1 ≤ (apply setting c).max_num_streams
unfolding apply
apply-one_stream (Setting.max_num_streams n) c h = omega arith
apply-one_stream (Setting.max_connection_receive_window n) c h = h
apply-one_stream (Setting.read_after_close b) c h = h
apply-one_stream (Setting.split_send_size n) c h = h
apply-one_stream (Setting.close_sync b) c h = h
apply-one_stream (Setting.keep_alive b) c h = h

build_config-one_stream :
    (settings : List Setting) (c : Config)
    → 1 ≤ c.max_num_streams
    → 1 ≤ (build_config settings c).max_num_streams
unfolding build_config
build_config-one_stream [] c h = h
build_config-one_stream (setting ∷ rest) c h =
    build_config-one_stream rest (apply setting c) (apply-one_stream setting c h)

covered :
    (c : Config) (w window : ℕ)
    → w ≡ window
    → ltb window (saturating_mul c.max_num_streams default_credit) ≡ false
    → w ≤ usize_max
    → (c.max_num_streams * default_credit ≤ w)
      ⊎ ((w ≡ usize_max) × (usize_max < c.max_num_streams * default_credit))
covered c w window e l word =
    let least : min (c.max_num_streams * default_credit) usize_max ≤ w = ground arith in
    elim (Bool-cases (ltb usize_max (c.max_num_streams * default_credit))) [
      | inl f ↦ inr (ground arith, ground arith)
      | inr f ↦ inl (ground arith)
    ]

-- Whatever is set on a builder, in whatever order, a configuration that `build` accepts has at least
-- one stream slot, and a receive window limit, if any that a `usize` holds, which gives every stream the
-- default credit, or is `usize::MAX` while the sum of the credits exceeds that. `build` refuses only a
-- limit below that sum, and reports the limit, the number of streams and the sum, cut at `usize::MAX`.
pub build_lem :
    (settings : List Setting)
    → let c = build_config settings default_config in
      ((build c ≡ ok c) × IsBuilt c)
      ⊎ ((window : ℕ) × (c.max_connection_receive_window ≡ some window)
          × (window < c.max_num_streams * default_credit)
          × (build c
              ≡ receive_window_too_small window c.max_num_streams
                  (saturating_mul c.max_num_streams default_credit)))
build_lem settings =
    let c = build_config settings default_config in
    go c c.max_connection_receive_window refl
      (build_config-one_stream settings default_config (unfold default_config in omega arith))
  where
    go :
        (c : Config) (limit : Option ℕ)
        → c.max_connection_receive_window ≡ limit
        → 1 ≤ c.max_num_streams
        → ((build c ≡ ok c) × IsBuilt c)
          ⊎ ((window : ℕ) × (c.max_connection_receive_window ≡ some window)
              × (window < c.max_num_streams * default_credit)
              × (build c
                  ≡ receive_window_too_small window c.max_num_streams
                      (saturating_mul c.max_num_streams default_credit)))
    go c none e h = inl (
      unfold build in ap (check_window c (saturating_mul c.max_num_streams default_credit)) e,
      record { one_stream = h; room = λ w k _. cc },
    )
    go c (some window) e h =
        let least = saturating_mul c.max_num_streams default_credit in
        let result : build c ≡ check_window c least (some window) =
          unfold build in ap (check_window c least) e in
        elim (Bool-cases (ltb window least)) [
          | inl l ↦
              let below : window < least = ltb→lt _ _ l in
              inr (window, e, omega arith, result ∙ rw l)
          | inr l ↦ inl (
            result ∙ rw l,
            record {
              one_stream = h;
              room = λ w k word. covered c w window (ground (arith, e, k)) l word;
            },
          )
        ]
