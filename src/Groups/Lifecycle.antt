-- ===== src/Groups/Lifecycle.antt =====
-- A group observation from the verified claim to the stored fact.
use rss_identity.Common.{◌≡◌, true, false, List, arith, ok}
use rss_identity.Common.Int.{ℤ, pos, ◌<ℤ◌, IsI64}
use rss_identity.Common.Text.{Text}
use rss_identity.Common.Ids.{Uuid, is_nil}
use rss_identity.Facts.{FactSource}
use rss_identity.Facts.Window.{expires_at-valid_snapshot_window, expires_at-acceptable}
use rss_identity.Groups.{
  available, present, make_present, new_max_age, expires_at, structurally_valid_at, current_version,
}
use rss_identity.Groups.Sets.{present-canonical}

-- Values that were accepted from a claim, with the deadline that the deployment's maximum age gives
-- them, make a fact that consumers accept as structurally valid at the time of the observation.
observed-structurally_valid :
    (source : FactSource) (snapshot : Uuid) (config seconds age issued expires now e : ℤ)
    (vs ws : List Text)
    → is_nil snapshot ≡ false
    → pos 0 <ℤ config
    → new_max_age seconds ≡ ok age
    → IsI64 expires
    → expires_at age issued expires now ≡ ok e
    → make_present vs ≡ ok (present ws)
    → structurally_valid_at
        (available (record {
          version = current_version;
          source = source;
          snapshot_id = snapshot;
          provider_config_version = config;
          observed_at = issued;
          expires_at = e;
          values = ws;
        }))
        now
      ≡ true
unfolding structurally_valid_at new_max_age expires_at
observed-structurally_valid source snapshot config seconds age issued expires now e vs ws n c m f h
      p =
    ground (
      arith,
      present-canonical vs ws p,
      expires_at-acceptable age issued expires now e h,
      expires_at-valid_snapshot_window age issued expires now e,
    )
