-- ===== src/Storage/Fake.antt =====
-- internal/modules/storage/fake.go: the sample data of the fake source.
use porcelain.Prelude.{ℕ, pos, false, true, [], ◌∷◌, ◌*◌}
use porcelain.Text.{codes}
use porcelain.Storage.{BlockDevice, StorageData}

abbrev tebibyte : ℕ
tebibyte = 1024 * 1024 * 1024 * 1024

abbrev gibibyte : ℕ
gibibyte = 1024 * 1024 * 1024

-- A row in which all that is not given is the zero value.
abbrev no_device : BlockDevice
no_device = record {
  object_path = [];
  device = [];
  path = [];
  model = [];
  size = pos 0;
  kind = [];
  filesystem = [];
  label = [];
  mount_points = [];
  is_encrypted = false;
  encryption_type = [];
  is_boot_device = false;
}

unfoldable pub fake_data : StorageData
fake_data = record {
  pools =
      record {
        name = codes "tank";
        health = codes "ONLINE";
        raid_type = codes "raidz2";
        allocated = 2 * tebibyte;
        size = 8 * tebibyte;
        compression_ratio = codes "1.34";
        deduplication = codes "off";
        scrub_status = codes "idle";
        last_scrub = codes "3 days ago";
        datasets =
            record { name = codes "tank/home"; used = 800 * gibibyte; available = 4 * tebibyte }
            ∷ record { name = codes "tank/podman"; used = 120 * gibibyte; available = 4 * tebibyte }
            ∷ [];
      }
      ∷ [];
  block_devices =
      record no_device {
        device = codes "/dev/sda";
        model = codes "Samsung SSD 870 EVO";
        size = pos (2 * tebibyte);
        kind = codes "filesystem";
        filesystem = codes "zfs_member";
      }
      ∷ record no_device {
        device = codes "/dev/sdb";
        model = codes "WD Red Pro";
        size = pos (4 * tebibyte);
        kind = codes "filesystem";
        filesystem = codes "zfs_member";
      }
      ∷ record no_device {
        device = codes "/dev/sdc";
        model = codes "Crucial MX500";
        size = pos (1 * tebibyte);
        kind = codes "encrypted";
        is_encrypted = true;
        encryption_type = codes "LUKS";
      }
      ∷ [];
  available_devices =
      record no_device {
        device = codes "/dev/sdd";
        path = codes "/dev/sdd";
        model = codes "Seagate IronWolf";
        size = pos (4 * tebibyte);
      }
      ∷ [];
}
