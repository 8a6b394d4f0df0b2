-- ===== src/Stats.antt =====
-- src/stats.c: the counters of an update.
use swupd_server.Prelude.{ℕ, ◌+◌, Bool, not, ◌==◌}

pub record Stats : Type 0 where
  pub new_files : ℕ
  pub deleted_files : ℕ
  pub changed_files : ℕ
  pub delta_miss : ℕ
  pub delta_hit : ℕ

abbrev pub no_stats : Stats
no_stats = record {
  new_files = 0;
  deleted_files = 0;
  changed_files = 0;
  delta_miss = 0;
  delta_hit = 0;
}

unfoldable pub account_new_file : Stats → Stats
account_new_file st = record st { new_files = st.new_files + 1 }

unfoldable pub account_deleted_file : Stats → Stats
account_deleted_file st = record st { deleted_files = st.deleted_files + 1 }

unfoldable pub account_changed_file : Stats → Stats
account_changed_file st = record st { changed_files = st.changed_files + 1 }

unfoldable pub account_delta_hit : Stats → Stats
account_delta_hit st = record st { delta_hit = st.delta_hit + 1 }

unfoldable pub account_delta_miss : Stats → Stats
account_delta_miss st = record st { delta_miss = st.delta_miss + 1 }

unfoldable pub have_delta_files : Stats → Bool
have_delta_files st = not (st.changed_files == 0)

unfoldable pub have_new_files : Stats → Bool
have_new_files st = not (st.new_files == 0)
