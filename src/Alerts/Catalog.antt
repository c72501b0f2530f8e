-- ===== src/Alerts/Catalog.antt =====
-- internal/alerts/catalog.go: the metrics that a rule can name, with their expressions; the labels and the
-- units for the editor are left out.
use system_wrangler_backend.Prelude.{
  Bool, true, false, Option, none, some, [], ◌∷◌, ◌++◌, Bytes, codes, bytes_eq,
}
use system_wrangler_backend.Prelude.Maps.{Map, lookup}

abbrev fs_filter_node : Bytes
fs_filter_node =
    codes "fstype!~\"tmpfs|devtmpfs|squashfs|overlay|ramfs|nsfs|cgroup.*|tracefs|d"
    ++ codes "ebugfs|fusectl|sysfs|proc|pstore|bpf|configfs|securityfs|hugetlbfs|mqu"
    ++ codes "eue|autofs|binfmt_misc\",mountpoint!~\"/System/Library/.*|/Library/Devel"
    ++ codes "oper/CoreSimulator/Volumes/.*|/System/Volumes/(Hardware|xarts|iSCPrebo"
    ++ codes "ot|Preboot|Update|VM).*|/private/tmp/tmp-mount-.*\""

abbrev fs_filter_windows : Bytes
fs_filter_windows = codes "volume!~\"HarddiskVolume.*\""

abbrev cpu_range : Bytes
cpu_range = codes "5m"

abbrev expr_mem_used_pct : Bytes
expr_mem_used_pct =
    codes "(1 - node_memory_MemAvailable_bytes / node_memory_MemTotal_bytes) * 10"
    ++ codes "0 "
    ++ codes "or ((node_memory_active_bytes + node_memory_wired_bytes) / "
    ++ codes "(node_memory_active_bytes + node_memory_inactive_bytes + "
    ++ codes "node_memory_wired_bytes + node_memory_free_bytes)) * 100 "
    ++ codes "or (1 - windows_memory_available_bytes / windows_memory_physical_total"
    ++ codes "_bytes) * 100 "
    ++ codes "or (1 - windows_os_physical_memory_free_bytes / windows_os_visible_mem"
    ++ codes "ory_bytes) * 100"

abbrev expr_cpu_busy_pct : Bytes
expr_cpu_busy_pct =
    codes "100 - (avg by (system_id)(rate(node_cpu_seconds_total{mode=\"idle\"}["
    ++ cpu_range
    ++ codes "])) * 100) "
    ++ codes "or 100 - (avg by (system_id)(rate(windows_cpu_time_total{mode=\"idle\"}["
    ++ cpu_range
    ++ codes "])) * 100)"

abbrev expr_fs_used_pct : Bytes
expr_fs_used_pct =
    codes "max by (system_id)((1 - node_filesystem_avail_bytes{"
    ++ fs_filter_node
    ++ codes "} / node_filesystem_size_bytes{"
    ++ fs_filter_node
    ++ codes "}) * 100) "
    ++ codes "or max by (system_id)((1 - windows_logical_disk_free_bytes{"
    ++ fs_filter_windows
    ++ codes "} / windows_logical_disk_size_bytes{"
    ++ fs_filter_windows
    ++ codes "}) * 100)"

abbrev expr_swap_used_pct : Bytes
expr_swap_used_pct =
    codes "(node_memory_SwapTotal_bytes - node_memory_SwapFree_bytes) / node_memo"
    ++ codes "ry_SwapTotal_bytes * 100"

abbrev expr_load1 : Bytes
expr_load1 = codes "node_load1"

abbrev pub catalog : Map Bytes Bytes
catalog =
    (codes "mem_used_pct", expr_mem_used_pct)
    ∷ (codes "fs_used_pct", expr_fs_used_pct)
    ∷ (codes "cpu_busy_pct", expr_cpu_busy_pct)
    ∷ (codes "swap_used_pct", expr_swap_used_pct)
    ∷ (codes "load1", expr_load1)
    ∷ []

is_present : Option Bytes → Bool
is_present none = false
is_present (some _) = true

unfoldable pub is_metric : Bytes → Bool
unfolding is_present
is_metric m = is_present (lookup m catalog)

or_empty : Option Bytes → Bytes
or_empty none = []
or_empty (some e) = e

-- `Metric.Expr`: "" for a metric that is not known.
pub metric_expr : Bytes → Bytes
unfolding or_empty
metric_expr m = or_empty (lookup m catalog)
