-- ===== src/Stages/InitScript.antt =====
-- The text of /init that stages/rootfs.py writes into the root file system.
use pronze.Prelude.{String, List, [], ◌∷◌}
use pronze.Prelude.Texts.{concat}

unfoldable pub init_lines : List String
init_lines =
    "#!/bin/sh\n" ∷ "\n" ∷ "export PATH=/usr/bin:/usr/sbin:/bin:/sbin\n" ∷ "\n"
    ∷ "mount -t proc proc /proc\n" ∷ "mount -t sysfs sysfs /sys\n"
    ∷ "mount -t devtmpfs devtmpfs /dev || mdev -s\n" ∷ "\n"
    ∷ "echo \"==========================================================\"\n"
    ∷ "echo \"          Welcome to Pronze (s6 Supervision)          \"\n"
    ∷ "echo \"==========================================================\"\n"
    ∷ "echo \"[+] System Boot Successful. Root filesystem type: Btrfs\"\n" ∷ "\n"
    ∷ "if [ -f /kernel/pronze.ko ]; then\n" ∷ "    echo \"[+] Loading Pronze kernel module...\"\n"
    ∷ "    insmod /kernel/pronze.ko\n" ∷ "    mknod /dev/pronze c 240 0\n"
    ∷ "    chmod 666 /dev/pronze\n"
    ∷ "    echo \"[✔] Registered device node /dev/pronze (major: 240)\"\n"
    ∷ "    mknod /dev/pronze_telemetry c 241 0\n" ∷ "    chmod 666 /dev/pronze_telemetry\n"
    ∷ "    echo \"[✔] Registered device node /dev/pronze_telemetry (major: 241)\"\n" ∷ "fi\n" ∷ "\n"
    ∷ "echo \"[+] Initiating s6 process supervision...\"\n"
    ∷ "/usr/bin/s6-svscan /etc/s6-services &\n" ∷ "S6_PID=$!\n" ∷ "\n" ∷ "sleep 1.5\n" ∷ "\n"
    ∷ "echo \"[+] Running verification test (C Allocator)...\"\n"
    ∷ "LD_LIBRARY_PATH=/usr/lib /usr/bin/test_alloc\n" ∷ "\n"
    ∷ "echo -e \"\\n[+] Running verification test (C++ Bounds Checks)...\"\n"
    ∷ "LD_LIBRARY_PATH=/usr/lib /usr/bin/test_bounds\n" ∷ "\n"
    ∷ "echo -e \"\\n[+] Running verification test (Zig SDK FFI)...\"\n"
    ∷ "LD_LIBRARY_PATH=/usr/lib /usr/bin/test_zig\n" ∷ "\n"
    ∷ "echo -e \"\\n[+] Running verification test (Rust SDK FFI)...\"\n"
    ∷ "LD_LIBRARY_PATH=/usr/lib /usr/bin/test_rust\n" ∷ "\n" ∷ "while true; do\n"
    ∷ "    echo -e \"\\nSpawning system terminal shell...\"\n" ∷ "    /bin/sh\n"
    ∷ "    echo \"Shell exited. Restarting shell...\"\n" ∷ "    sleep 1\n" ∷ "done\n" ∷ []

unfoldable pub init_script : String
init_script = concat init_lines
